-- ===== src/Service/Informing.antt =====
-- src/WebsocketSink.cpp: that every session of the sink tells the strings of an event before it.
use Prim.Native.Nat.{bit_and, bit_and-bitwise}
use yardstick.Base.{
  ℕ, zero, suc, ◌≡◌, ◌≢◌, refl, sym, ap, ◌∙◌, Option, none, some, List, [], ◌∷◌, ◌++◌, append_assoc,
  All, ◌==◌, true, false, if◌then◌else◌, get_or, replicate,
}
use mathlib.Core.Path.{subst₂}
use yardstick.Protocol.{Memory, EventData}
use yardstick.Session.{table_size, byte_index, bit_mask}
use yardstick.Session.Strings.{announce, is_marked, told_all}
use yardstick.Session.Events.{strings}
use yardstick.Session.Hearing.{Named, Knows, Named-append, event-Heard}
use yardstick.Sink.{Node, Sink, fresh_session}
use yardstick.Sink.Fresh.{fresh_session-IsValid}
use yardstick.Sink.Broadcast.{Holding, Told}
use yardstick.Sink.Agreeing.{Agrees}
use yardstick.Emit.{connected_header}
use yardstick.Background.Taking.{table_at, table_at-some, after_one}

zeros-get : (n i : ℕ) → ◌≡◌ {A = ℕ} (get_or (replicate n 0) i 0) 0
zeros-get zero i = refl
zeros-get (suc n) zero = refl
zeros-get (suc n) (suc i) = zeros-get n i

zeros-unmarked : (handle : ℕ) → is_marked (replicate table_size 0) handle ≢ true
unfolding is_marked
zeros-unmarked handle e =
    let clear : (if bit_and (get_or (replicate table_size 0) (byte_index handle) 0)
              (bit_mask handle)
            == 0
          then false
          else true)
        ≡ false =
      ap (λ b. if bit_and b (bit_mask handle) == 0 then false else true)
        (zeros-get table_size (byte_index handle))
      ∙ ap (λ n. if n == 0 then false else true) (zero_bits (bit_mask handle)) in
    true_ne (sym e ∙ clear)
  where
    true_ne : true ≢ false
    true_ne e = cc

    zero_bits : (m : ℕ) → bit_and 0 m ≡ 0
    zero_bits m = bit_and-bitwise 0 m

module _ (mem : Memory) where
  -- What a table and a history say of each other.
  pub record Informed (table : List ℕ) (h : List EventData) : Type 0 where
    pub knows : Knows mem table h
    pub named : Named mem [] h

  abbrev pub AllInformed : (ℕ → Option Node) → (ℕ → List EventData) → List ℕ → Type 0
  AllInformed heap history xs = All (λ x. Informed (table_at heap x) (history x)) xs

  Informed-next :
      (table : List ℕ) (h : List EventData) (ev : EventData)
      → Informed table h
      → Informed (told_all table (strings ev)) (h ++ announce mem table (strings ev) ++ (ev ∷ []))
  Informed-next table h ev i =
      let e = event-Heard mem table h ev i.knows in
      rw (append_assoc h (announce mem table (strings ev)) (ev ∷ []))
        (record { knows = e.knows; named = Named-append mem [] h _ i.named e.named })

  pub Told-Informed :
      (ev : EventData) (heap heap' : ℕ → Option Node) (history : ℕ → List EventData) (xs : List ℕ)
      → Told mem ev heap heap' history xs
      → AllInformed heap history xs
      → AllInformed heap' (after_one mem heap history ev) xs
  Told-Informed ev heap heap' history [] told all = tt
  Told-Informed ev heap heap' history (x ∷ xs) ((n, here, (t, there, v, marked, l)), told)
        (i, all) =
      let table : table_at heap' x ≡ told_all (table_at heap x) (strings ev) =
        table_at-some heap' x there
        ∙ marked
        ∙ ap (λ l. told_all l (strings ev)) (sym (table_at-some heap x here)) in
      (
        rw table (Informed-next (table_at heap x) (history x) ev i),
        Told-Informed ev heap heap' history xs told all,
      )

  pub Informed-tables :
      (heap heap' : ℕ → Option Node) (history : ℕ → List EventData) (xs : List ℕ)
      → All (λ x. table_at heap' x ≡ table_at heap x) xs
      → AllInformed heap history xs
      → AllInformed heap' history xs
  Informed-tables heap heap' history [] same all = tt
  Informed-tables heap heap' history (x ∷ xs) (e, same) (i, all) =
      (rw e i, Informed-tables heap heap' history xs same all)

  pub Informed-kept :
      (heap heap' : ℕ → Option Node) (h h' : ℕ → List EventData) (xs : List ℕ)
      → All (λ x. (heap' x ≡ heap x) × (h x ≡ h' x)) xs
      → AllInformed heap h xs
      → AllInformed heap' h' xs
  unfolding table_at
  Informed-kept heap heap' h h' [] same all = tt
  Informed-kept heap heap' h h' (x ∷ xs) ((e, f), same) (i, all) = (
    subst₂ Informed (ap (λ v. elim v [ none ↦ [] | some n ↦ n.session.table ]) (sym e)) f i,
    Informed-kept heap heap' h h' xs same all,
  )

  -- The sessions other than one that is destroyed.
  pub Informed-Agrees :
      (s s' : Sink) (p : ℕ) (history : ℕ → List EventData) (xs : List ℕ)
      → Agrees s s' p
      → All (λ x. x ≢ p) xs
      → Holding mem s.heap history xs
      → AllInformed s.heap history xs
      → AllInformed s'.heap history xs
  Informed-Agrees s s' p history [] a out hold all = tt
  Informed-Agrees s s' p history (x ∷ xs) a (ne, out) ((n, here, v, l), hold) (i, all) =
      let (n', there, link, same) = a.others x n here ne in
      let table : table_at s'.heap x ≡ table_at s.heap x =
        table_at-some s'.heap x there
        ∙ ap (λ k. k.table) same
        ∙ sym (table_at-some s.heap x here) in
      (rw table i, Informed-Agrees s s' p history xs a out hold all)

  -- A new session, and the same after the header.
  pub Informed-new : (connection : ℕ) → Informed (fresh_session connection).table []
  Informed-new connection =
      let v = fresh_session-IsValid connection in
      record {
        knows = record {
          whole = record { entries = v.entries; bytes = v.bytes };
          truthful = λ handle e. absurd (zeros-unmarked handle e);
        };
        named = tt;
      }

  pub Informed-fresh :
      (connection frequency now : ℕ)
      → Informed (fresh_session connection).table (connected_header frequency now ∷ [])
  unfolding connected_header strings announce told_all
  Informed-fresh connection frequency now =
      Informed-next (fresh_session connection).table [] (connected_header frequency now)
        (Informed-new connection)
