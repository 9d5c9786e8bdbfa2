-- ===== src/Sink/Create.antt =====
-- src/WebsocketSink.cpp: `CreateSession`.
use yardstick.Base.{update_self, update-ne, ℕ, ◌≡◌, ◌≢◌, refl, none, some, List, ◌∷◌, arith}
use yardstick.Sink.{Node, Sink, store, Blocks, allocate, fresh_session, create_session}
use yardstick.Sink.Chain.{IsValid, Chain-out, Chain-head}

abbrev pub new_node : Blocks → ℕ → Sink → Node
new_node b connection s = record {
  prev = 0;
  next = s.sessions;
  buffer_block = b.buffer_block;
  table_block = b.table_block;
  session = fresh_session connection;
}

-- On a sink whose list is whole, where the sink has an allocator, which gives three blocks, the first of which holds
-- no session, CreateSession returns the first one; the new session, empty, is at the head of the
-- list, the others follow as before, and no other block is touched.
pub create_session-success :
    (allocator : ℕ) (b : Blocks) (connection : ℕ) (s : Sink) (xs : List ℕ)
    → allocator ≢ 0
    → b.session_block ≢ 0
    → b.buffer_block ≢ 0
    → b.table_block ≢ 0
    → s.heap b.session_block ≡ none
    → IsValid s xs
    → (s' : Sink) × (create_session allocator b connection s ≡ some (b.session_block, s'))
      × IsValid s' (b.session_block ∷ xs)
      × (s'.heap b.session_block ≡ some (new_node b connection s))
      × ((y : ℕ) → b.session_block ≢ y → s'.heap y ≡ s.heap y)
unfolding create_session store allocate
create_session-success allocator b connection s xs nz0 nz1 nz2 nz3 dead v =
    let out = Chain-out s.heap s.sessions b.session_block xs dead v.chain in
    (
      record (allocate b.table_block (
          allocate b.buffer_block
            (store b.session_block (new_node b connection s) (allocate b.session_block s)))) {
              sessions = b.session_block;
            },
      ground arith,
      record {
        chain =
            Chain-head s.heap b.session_block b.session_block (new_node b connection s) xs out refl
              nz1 refl v.chain;
        distinct = (out, v.distinct);
      },
      update_self s.heap b.session_block _,
      λ y ne. update-ne s.heap b.session_block y _ ne,
    )
