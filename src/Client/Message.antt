-- ===== src/Client/Message.antt =====
-- A whole message through the reader of tools/web/js/ysProtocol.js.
use yardstick.Base.{
  ℕ, zero, suc, ◌+◌, ◌≤◌, ◌<◌, ◌≡◌, refl, sym, ap, ◌∙◌, none, some, List, [], ◌∷◌, ◌++◌, append-nil,
  append_assoc, length, length-append, arith,
}
use yardstick.Protocol.{Memory, EventData, encode_size}
use yardstick.Protocol.Encoding.{encoding, encodings, length-encoding}
use yardstick.Client.{Event, Reader, read, events, push, read_all, read_message}
use yardstick.Client.RoundTrip.{IsEvent, seen, encoding-cons, read-encoding}

-- The events of a message, each with what the client sees of it.
pub data Seen (round : ℕ → ℕ) (mem : Memory) : List EventData → List Event → Type 0 where
  nothing : Seen round mem [] []
  more :
      {ev : EventData} {evs : List EventData} {out : Event} {outs : List Event}
      → IsEvent ev
      → seen round mem ev ≡ some out
      → Seen round mem evs outs
      → Seen round mem (ev ∷ evs) (out ∷ outs)

read_all-done :
    (round : ℕ → ℕ) (fuel : ℕ) (r : Reader)
    → length r.view ≤ r.pos
    → read_all round (suc fuel) r ≡ events [] r
unfolding read_all read
read_all-done round fuel r h = ground arith

read_all-more :
    (round : ℕ → ℕ) (fuel : ℕ) (r : Reader) {ev : Event} {r' : Reader}
    → read round r ≡ some (some ev, r')
    → read_all round (suc fuel) r ≡ push ev (read_all round fuel r')
unfolding read_all
read_all-more round fuel r e = rw (e, read_all)

abbrev reader_at : List ℕ → ℕ → Reader
reader_at view pos = record { view = view; pos = pos; error = none }

read_all-encodings :
    (round : ℕ → ℕ) (mem : Memory) {evs : List EventData} {outs : List Event}
    → Seen round mem evs outs
    → (fuel : ℕ) (before view : List ℕ) → length (encodings mem evs) < fuel
    → view ≡ before ++ encodings mem evs
    → read_all round fuel (reader_at view (length before))
      ≡ events outs (reader_at view (length view))
unfolding push
read_all-encodings round mem nothing zero before view h e = absurd (omega arith)
read_all-encodings round mem nothing (suc fuel) before view h e =
    let ends : length view ≡ length before = ap length (e ∙ append-nil before) in
    read_all-done round fuel _ (omega arith) ∙ ap (λ n. events [] (reader_at view n)) (sym ends)
read_all-encodings round mem (more ok e rest) zero before view h e' = absurd (omega arith)
read_all-encodings round mem (more {ev} {evs} {out} ok seen_ev rest) (suc fuel) before view h e =
    let size : length (encoding mem ev) ≡ encode_size ev = length-encoding mem ev in
    let apart : length (encodings mem (ev ∷ evs))
        ≡ length (encoding mem ev) + length (encodings mem evs) =
      length-append (encoding mem ev) (encodings mem evs) in
    let here : length before + encode_size ev ≡ length (before ++ encoding mem ev) =
      omega (arith, length-append before (encoding mem ev)) in
    let step : read round (reader_at view (length before))
        ≡ some (some out, reader_at view (length (before ++ encoding mem ev))) =
      rw (← here, e) (read-encoding round mem before (encodings mem evs) ev ok seen_ev none) in
    let positive : 0 < length (encoding mem ev) =
      let (tail, head) = encoding-cons mem ev in rw head (omega arith) in
    read_all-more round fuel (reader_at view (length before)) step
    ∙ ap (push out) (
        read_all-encodings round mem rest fuel (before ++ encoding mem ev) view (omega arith)
          (e ∙ sym (append_assoc before (encoding mem ev) (encodings mem evs))))

-- The web tool's reader takes a message that is the encodings of some events, none of type None and
-- all with values that fit their types, for exactly those events in order, with no parse error and
-- no read past the end.
pub read_message-encodings :
    (round : ℕ → ℕ) (mem : Memory) {evs : List EventData} {outs : List Event}
    → Seen round mem evs outs
    → read_message round (encodings mem evs)
      ≡ events outs (reader_at (encodings mem evs) (length (encodings mem evs)))
unfolding read_message
read_message-encodings round mem {evs} shown =
    read_all-encodings round mem shown (suc (length (encodings mem evs))) [] (encodings mem evs)
      (omega arith) refl
