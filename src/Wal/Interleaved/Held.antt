-- ===== src/Wal/Interleaved/Held.antt =====
-- Who holds the lock of the writer of src/wal.rs, and what the journal carries meanwhile.
use db233_rust.Errors.{ok}
use db233_rust.Common.{
  ℕ, ◌≡◌, ◌≢◌, ap, sym, ◌∙◌, Bool, true, false, List, [], ◌∷◌, ◌++◌, map, ◌⊎◌, inl, inr, subst,
  ℕ_discrete,
}
use db233_rust.Extern.{Extern}
use db233_rust.Wal.{WriteEntry, EntryFormat, Journal, to_serde}
use db233_rust.Wal.Recovery.{IsLineOf, are_loggable}
use db233_rust.Wal.Interleaved.{Shared, Writer, lock}
use db233_rust.Wal.Interleaved.Carried.{Carries, SameBytes, Carries-same}

abbrev pub holds : Writer → Bool
holds (Writer.writes e line) = true
holds (Writer.flushes e) = true
holds Writer.stop_flushes = true
holds w = false

-- A call that has returned is out of the journal, whatever it has answered.
abbrev pub settled : Writer → Writer
settled (Writer.returned r) = Writer.returned (ok tt)
settled (Writer.enters sql values) = Writer.enters sql values
settled (Writer.waits e line) = Writer.waits e line
settled (Writer.writes e line) = Writer.writes e line
settled (Writer.flushes e) = Writer.flushes e
settled Writer.stops = Writer.stops
settled Writer.stop_waits = Writer.stop_waits
settled Writer.stop_flushes = Writer.stop_flushes

module _ {N : Type 0} (x : Extern N) (format : EntryFormat) where
  -- What a call has seen to before it comes to where it is.
  abbrev pub IsReady : Writer → Type 0
  IsReady (Writer.enters sql params) = are_loggable (map (to_serde x) params) ≡ true
  IsReady (Writer.waits e line) = IsLineOf format e line
  IsReady (Writer.writes e line) = IsLineOf format e line
  IsReady w = Unit

  -- The journal while this call holds the lock.
  abbrev pub Content : List WriteEntry → Writer → Journal → Type 0
  Content es (Writer.flushes e) j = Carries format (es ++ e ∷ []) j
  Content es w j = Carries format es j × (j.buffer ≡ [])

  -- What a turn of the call puts into the file for good.
  abbrev pub flushed : Writer → List WriteEntry
  flushed (Writer.flushes e) = e ∷ []
  flushed w = []

  -- Nobody holds the lock, and the file has the entries.
  pub record IsFree (es : List WriteEntry) (at : ℕ → Writer) (s : Shared) : Type 0 where
    pub open_lock : s.locked ≡ false
    pub idle : (i : ℕ) → holds (at i) ≡ false
    pub carried : Carries format es s.journal
    pub empty : s.journal.buffer ≡ []

  -- One call holds the lock, and no other.
  pub record IsHeld (es : List WriteEntry) (at : ℕ → Writer) (s : Shared) (i : ℕ) : Type 0 where
    pub shut_lock : s.locked ≡ true
    pub here : holds (at i) ≡ true
    pub others : (j : ℕ) → j ≢ i → holds (at j) ≡ false
    pub content : Content es (at i) s.journal

  pub record IsSafe (es : List WriteEntry) (at : ℕ → Writer) (s : Shared) : Type 0 where
    pub ready : (i : ℕ) → IsReady (at i)
    pub phase : IsFree es at s ⊎ ((i : ℕ) × IsHeld es at s i)

  -- The call at `k` goes on to `w`, and every other stays where it is.
  pub record Goes (at at' : ℕ → Writer) (k : ℕ) (w : Writer) : Type 0 where
    pub there : at' k ≡ w
    pub rest : (j : ℕ) → j ≢ k → at' j ≡ at j

  IsReady-Goes :
      (at at' : ℕ → Writer) (k : ℕ) (w : Writer)
      → Goes at at' k w
      → IsReady w
      → ((i : ℕ) → IsReady (at i))
      → (i : ℕ) → IsReady (at' i)
  IsReady-Goes at at' k w g r all i = elim (ℕ_discrete i k) [
    | yes same ↦ subst IsReady (sym g.there ∙ ap at' (sym same)) r
    | no other ↦ subst IsReady (sym (g.rest i other)) (all i)
  ]

  holds-Goes :
      (at at' : ℕ → Writer) (k : ℕ) (w : Writer)
      → Goes at at' k w
      → holds w ≡ false
      → ((i : ℕ) → i ≢ k → holds (at i) ≡ false)
      → (i : ℕ) → holds (at' i) ≡ false
  holds-Goes at at' k w g quiet all i = elim (ℕ_discrete i k) [
    | yes same ↦ ap holds (ap at' same ∙ g.there) ∙ quiet
    | no other ↦ ap holds (g.rest i other) ∙ all i other
  ]

  Content-same :
      (es : List WriteEntry) (w : Writer) (j k : Journal)
      → SameBytes j k
      → Content es w j
      → Content es w k
  Content-same es (Writer.flushes e) j k same c = Carries-same format (es ++ e ∷ []) j k same c
  Content-same es (Writer.enters sql params) j k same c =
      (Carries-same format es j k same c.0, same.1 ∙ c.1)
  Content-same es (Writer.waits e line) j k same c =
      (Carries-same format es j k same c.0, same.1 ∙ c.1)
  Content-same es (Writer.writes e line) j k same c =
      (Carries-same format es j k same c.0, same.1 ∙ c.1)
  Content-same es Writer.stops j k same c = (Carries-same format es j k same c.0, same.1 ∙ c.1)
  Content-same es Writer.stop_waits j k same c = (Carries-same format es j k same c.0, same.1 ∙ c.1)
  Content-same es Writer.stop_flushes j k same c =
      (Carries-same format es j k same c.0, same.1 ∙ c.1)
  Content-same es (Writer.returned r) j k same c =
      (Carries-same format es j k same c.0, same.1 ∙ c.1)

  -- A turn of a call that neither takes nor holds the lock.
  pub quiet-IsSafe :
      (es : List WriteEntry) (at at' : ℕ → Writer) (k : ℕ) (w : Writer) (s s' : Shared)
      → Goes at at' k w
      → holds (at k) ≡ false
      → holds w ≡ false
      → IsReady w
      → s'.locked ≡ s.locked
      → SameBytes s.journal s'.journal
      → IsSafe es at s
      → IsSafe es at' s'
  quiet-IsSafe es at at' k w s s' g before after r lock same h = record {
    ready = IsReady-Goes at at' k w g r h.ready;
    phase = elim h.phase [
      | inl f ↦ inl (record {
        open_lock = lock ∙ f.open_lock;
        idle = holds-Goes at at' k w g after (λ i _. f.idle i);
        carried = Carries-same format es s.journal s'.journal same f.carried;
        empty = same.1 ∙ f.empty;
      })
      | inr (i, d) ↦
          let other : i ≢ k = λ e. cc (ap (λ (n : ℕ). holds (at n)) e, d.here, before) in
          inr (
            i,
            record {
              shut_lock = lock ∙ d.shut_lock;
              here = ap holds (g.rest i other) ∙ d.here;
              others = λ j away. elim (ℕ_discrete j k) [
                | yes at_k ↦ ap holds (ap at' at_k ∙ g.there) ∙ after
                | no off ↦ ap holds (g.rest j off) ∙ d.others j away
              ];
              content =
                  subst (λ (v : Writer). Content es v s'.journal) (sym (g.rest i other))
                    (Content-same es (at i) s.journal s'.journal same d.content);
            },
          )
    ];
  }

  -- A call that holds the lock is the one.
  pub owner :
      (es : List WriteEntry) (at : ℕ → Writer) (k : ℕ) (s : Shared)
      → IsSafe es at s
      → holds (at k) ≡ true
      → IsHeld es at s k
  owner es at k s h held = elim h.phase [
    | inl f ↦ absurd (cc (f.idle k, held))
    | inr (i, d) ↦ elim (ℕ_discrete k i) [
      | yes same ↦ subst (IsHeld es at s) (sym same) d
      | no other ↦ absurd (cc (d.others k other, held))
    ]
  ]

  module _ (es : List WriteEntry) (at at' : ℕ → Writer) (k : ℕ) (w : Writer) (s s' : Shared)
      (g : Goes at at' k w) (r : IsReady w) (h : IsSafe es at s) where
    -- The lock is taken.
    pub take-IsSafe :
        s.locked ≡ false
        → s'.locked ≡ true
        → holds w ≡ true
        → (Carries format es s.journal → s.journal.buffer ≡ [] → Content es w s'.journal)
        → IsSafe es at' s'
    take-IsSafe before after held content = record {
      ready = IsReady-Goes at at' k w g r h.ready;
      phase = elim h.phase [
        | inr (i, d) ↦ absurd (cc (d.shut_lock, before))
        | inl f ↦ inr (
          k,
          record {
            shut_lock = after;
            here = ap holds g.there ∙ held;
            others = λ j away. ap holds (g.rest j away) ∙ f.idle j;
            content =
                subst (λ (v : Writer). Content es v s'.journal) (sym g.there)
                  (content f.carried f.empty);
          },
        )
      ];
    }

    -- The call that holds the lock goes on with it, or drops it.
    pub keep-IsSafe :
        holds (at k) ≡ true
        → s'.locked ≡ true
        → holds w ≡ true
        → Content es w s'.journal
        → IsSafe es at' s'
    keep-IsSafe before after held content =
        let d = owner es at k s h before in
        record {
          ready = IsReady-Goes at at' k w g r h.ready;
          phase = inr (
            k,
            record {
              shut_lock = after;
              here = ap holds g.there ∙ held;
              others = λ j away. ap holds (g.rest j away) ∙ d.others j away;
              content = subst (λ (v : Writer). Content es v s'.journal) (sym g.there) content;
            },
          );
        }

    pub drop-IsSafe :
        (more : List WriteEntry)
        → holds (at k) ≡ true
        → s'.locked ≡ false
        → holds w ≡ false
        → Carries format (es ++ more) s'.journal
        → s'.journal.buffer ≡ []
        → IsSafe (es ++ more) at' s'
    drop-IsSafe more before after free carried empty =
        let d = owner es at k s h before in
        record {
          ready = IsReady-Goes at at' k w g r h.ready;
          phase = inl (record {
            open_lock = after;
            idle = holds-Goes at at' k w g free d.others;
            carried = carried;
            empty = empty;
          });
        }
