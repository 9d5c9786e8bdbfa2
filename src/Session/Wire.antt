-- ===== src/Session/Wire.antt =====
-- What the calls of a session amount to: the messages that its client receives. The writes between
-- the start and the end of a frame make one message; a call out of place breaks the connection.
use yardstick.Base.{List, [], ◌∷◌, ◌++◌, ℕ, ◌≡◌, refl}
use yardstick.Session.{Call, begin_socket_frame, write, printf, end_socket_frame}

pub data Wire : Type 0 where
  closed : List (List ℕ) → Wire
  opened : List (List ℕ) → List ℕ → Wire
  broken : Wire

abbrev pub deliver : Wire → Call → Wire
deliver (closed ms) begin_socket_frame = opened ms []
deliver (opened ms bytes) (write more) = opened ms (bytes ++ more)
deliver (opened ms bytes) (printf more) = opened ms (bytes ++ more)
deliver (opened ms bytes) end_socket_frame = closed (ms ++ (bytes ∷ []))
deliver _ _ = broken

unfoldable pub wire : Wire → List Call → Wire
wire w [] = w
wire w (c ∷ cs) = wire (deliver w c) cs

pub wire-append : (w : Wire) (cs ds : List Call) → wire w (cs ++ ds) ≡ wire (wire w cs) ds
unfolding wire
wire-append w [] ds = refl
wire-append w (c ∷ cs) ds = wire-append (deliver w c) cs ds
