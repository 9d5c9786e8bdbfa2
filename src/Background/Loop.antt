-- ===== src/Background/Loop.antt =====
-- src/GlobalState.cpp: how `ThreadMain` ends.
use yardstick.Base.{◌≡◌, refl, ◌∙◌, true, false, ℕ, List, [], ◌∷◌, ◌++◌}
use yardstick.Protocol.{Memory}
use yardstick.Sink.{Sink, ended}
use yardstick.Background.{Background, Turn, main_turn, thread_main}

module _ (mem : Memory) (update_server : Sink → Sink) (fuel : ℕ) where
  -- Turns that end, each after what happens while it waits.
  pub data Turns : Background → List Turn → Background → Type 0 where
    over : {b : Background} → Turns b [] b
    another :
        {b b1 b2 : Background} {ts : List Turn} (t : Turn)
        → t.active ≡ true
        → main_turn mem update_server fuel (t.meanwhile b) ≡ ended b1
        → Turns b1 ts b2
        → Turns b (t ∷ ts) b2

  thread_main-turn :
      (t : Turn) (ts : List Turn) (b : Background) {b1 : Background}
      → t.active ≡ true
      → main_turn mem update_server fuel (t.meanwhile b) ≡ ended b1
      → thread_main mem update_server fuel (t ∷ ts) b ≡ thread_main mem update_server fuel ts b1
  unfolding thread_main
  thread_main-turn t ts b on e = rw (on, e) refl

  thread_main-off :
      (t : Turn) (ts : List Turn) (b : Background)
      → t.active ≡ false
      → thread_main mem update_server fuel (t ∷ ts) b ≡ ended b
  unfolding thread_main
  thread_main-off t ts b off = rw off refl

  -- After turns that end ThreadMain is what is left of it.
  pub thread_main-after :
      {b b' : Background} {ts : List Turn} (rest : List Turn)
      → Turns b ts b'
      → thread_main mem update_server fuel (ts ++ rest) b
        ≡ thread_main mem update_server fuel rest b'
  thread_main-after rest over = refl
  thread_main-after {b} rest (another {ts} t on e turns) =
      thread_main-turn t (ts ++ rest) b on e ∙ thread_main-after rest turns

  -- After any turns that end, ThreadMain returns at the first test of the flag that fails, and takes
  -- nothing more off the queues.
  pub thread_main-ends :
      {b b' : Background} {ts : List Turn} (last : Turn) (more : List Turn)
      → Turns b ts b'
      → last.active ≡ false
      → thread_main mem update_server fuel (ts ++ (last ∷ more)) b ≡ ended b'
  thread_main-ends {b' = b'} last more turns off =
      thread_main-after (last ∷ more) turns ∙ thread_main-off last more b' off
