-- ===== src/Client/Admin/RemoveEvents/Bits.antt =====
-- The condition bits of `remove_events` (alsa_midi/client.py) against the arguments.
use python_alsa_midi.Prelude.{ℕ, ◌≡◌, Bool, not, ◌&&◌, has_any, arith}
use python_alsa_midi.Port.Info.{is_some}
use python_alsa_midi.Client.Admin.RemoveEvents.{
  remove_dest, remove_dest_channel, remove_time_before, remove_time_after, remove_time_tick,
  remove_event_type, remove_ignore_off, remove_tag_match, RemoveArgs, time_flag, is_ticks, add_if,
  condition_bits,
}

-- The bits by the truth of the conditions.
abbrev bits_for : Bool → Bool → Bool → Bool → Bool → Bool → Bool → Bool → ℕ
bits_for ignore tag type tick time before channel dest = add_if ignore remove_ignore_off (
    add_if tag remove_tag_match (
      add_if type remove_event_type (
        add_if tick remove_time_tick (
          add_if time (time_flag before)
            (add_if channel remove_dest_channel (add_if dest remove_dest 0))))))

module _ (i g t k m b c d : Bool) where
  bits_for-dest : has_any (bits_for i g t k m b c d) remove_dest ≡ d
  bits_for-dest = ground arith

  bits_for-channel : has_any (bits_for i g t k m b c d) remove_dest_channel ≡ c
  bits_for-channel = ground arith

  bits_for-before : has_any (bits_for i g t k m b c d) remove_time_before ≡ (m && b)
  bits_for-before = ground arith

  bits_for-after : has_any (bits_for i g t k m b c d) remove_time_after ≡ (m && not b)
  bits_for-after = ground arith

  bits_for-tick : has_any (bits_for i g t k m b c d) remove_time_tick ≡ k
  bits_for-tick = ground arith

  bits_for-type : has_any (bits_for i g t k m b c d) remove_event_type ≡ t
  bits_for-type = ground arith

  bits_for-ignore : has_any (bits_for i g t k m b c d) remove_ignore_off ≡ i
  bits_for-ignore = ground arith

  bits_for-tag : has_any (bits_for i g t k m b c d) remove_tag_match ≡ g
  bits_for-tag = ground arith

-- Without a condition of its own, `remove_events` sets each flag exactly if its argument is given: the
-- two flags of the time exclude each other, and ticks are flagged exactly if the time is a number.
pub condition_bits-flags :
    (a : RemoveArgs)
    → (has_any (condition_bits 0 a) remove_dest ≡ is_some a.dest)
      × (has_any (condition_bits 0 a) remove_dest_channel ≡ is_some a.channel)
      × (has_any (condition_bits 0 a) remove_time_before ≡ (is_some a.time && a.before))
      × (has_any (condition_bits 0 a) remove_time_after ≡ (is_some a.time && not a.before))
      × (has_any (condition_bits 0 a) remove_time_tick ≡ is_ticks a.time)
      × (has_any (condition_bits 0 a) remove_event_type ≡ is_some a.event_type)
      × (has_any (condition_bits 0 a) remove_ignore_off ≡ a.ignore_off)
      × (has_any (condition_bits 0 a) remove_tag_match ≡ is_some a.tag)
unfolding condition_bits
condition_bits-flags a =
    let i = a.ignore_off in
    let g = is_some a.tag in
    let t = is_some a.event_type in
    let k = is_ticks a.time in
    let m = is_some a.time in
    let b = a.before in
    let c = is_some a.channel in
    let d = is_some a.dest in
    (
      bits_for-dest i g t k m b c d,
      bits_for-channel i g t k m b c d,
      bits_for-before i g t k m b c d,
      bits_for-after i g t k m b c d,
      bits_for-tick i g t k m b c d,
      bits_for-type i g t k m b c d,
      bits_for-ignore i g t k m b c d,
      bits_for-tag i g t k m b c d,
    )
