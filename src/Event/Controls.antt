-- ===== src/Event/Controls.antt =====
-- `ResultEventBase`, `ControlChangeEventBase` and `ParamChangeEventBase` of alsa_midi/event.py.
-- Their constructors store the arguments unchecked.
use python_alsa_midi.Prelude.{ℤ}
use python_alsa_midi.Exceptions.{Result, ok, ◌>>=◌}
use python_alsa_midi.Struct.{Field, Union, assign}
use python_alsa_midi.Event.Payload.{Payload}

module _ (u : Union) where
  open u use {Data, get}

  unfoldable pub result_from_alsa : Data → Result Payload
  result_from_alsa d = ok (Payload.result (get Field.result_event d) (get Field.result_result d))

  unfoldable pub result_to_alsa : ℤ → ℤ → Data → Result Data
  unfolding assign
  result_to_alsa event result d = do
    d₁ ← assign u Field.result_event event d
    assign u Field.result_result result d₁

  unfoldable pub control_from_alsa : Data → Result Payload
  control_from_alsa d = ok (
      Payload.control (get Field.control_channel d) (get Field.control_param d)
        (get Field.control_value d))

  unfoldable pub control_to_alsa : ℤ → ℤ → ℤ → Data → Result Data
  unfolding assign
  control_to_alsa channel param value d = do
    d₁ ← assign u Field.control_channel channel d
    d₂ ← assign u Field.control_param param d₁
    assign u Field.control_value value d₂

  unfoldable pub param_from_alsa : Data → Result Payload
  param_from_alsa d = ok (Payload.param (get Field.control_channel d) (get Field.control_value d))

  unfoldable pub param_to_alsa : ℤ → ℤ → Data → Result Data
  unfolding assign
  param_to_alsa channel value d = do
    d₁ ← assign u Field.control_channel channel d
    assign u Field.control_value value d₁
