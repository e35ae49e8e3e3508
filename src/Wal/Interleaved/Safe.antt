-- ===== src/Wal/Interleaved/Safe.antt =====
-- What the calls on the journal of src/wal.rs keep while they cut into one another.
use db233_rust.Common.{
  ℕ, ℤ, ◌≡◌, refl, ap, sym, ◌∙◌, true, false, List, [], ◌∷◌, ◌++◌, Text, append-nil, arith, inl,
  inr, Bool-cases, subst,
}
use db233_rust.Errors.{ok, fine}
use db233_rust.SqlValue.{Value}
use db233_rust.Extern.{Extern}
use db233_rust.Wal.{WriteEntry, EntryFormat, entry_of, buffer_text}
use db233_rust.Wal.Recovery.{IsJson, IsLineOf}
use db233_rust.Wal.Interleaved.{
  Shared, Writer, step, enter_record, write_locked, flush_locked, lower_running, lock,
}
use db233_rust.Wal.Interleaved.Carried.{
  Carries, write_line-ok, buffer_text-Carries, flush-IsFlushed,
}
use db233_rust.Wal.Interleaved.Held.{
  holds, settled, IsReady, Content, flushed, IsSafe, Goes, quiet-IsSafe, owner, take-IsSafe,
  keep-IsSafe, drop-IsSafe,
}

module _ {N : Type 0} (x : Extern N) (format : EntryFormat) (json : IsJson format)
    (es : List WriteEntry) (at at' : ℕ → Writer) (k : ℕ) (now : ℤ) (s : Shared)
    (h : IsSafe x format es at s) where
  -- A turn that records nothing.
  none_flushed : (s' : Shared) → IsSafe x format es at' s' → IsSafe x format (es ++ []) at' s'
  none_flushed s' = subst (λ (l : List WriteEntry). IsSafe x format l at' s') (sym (append-nil es))

  enter_stopped :
      (sql : Text) (params : List Value)
      → s.journal.running ≡ false
      → enter_record x format now sql params s ≡ (Writer.returned (ok tt), s)
  unfolding enter_record
  enter_stopped sql params stopped = ground arith

  pub enter_running :
      (sql : Text) (params : List Value) (line : Text)
      → s.journal.running ≡ true
      → format.encode (entry_of x format now sql params) ≡ fine line
      → enter_record x format now sql params s
        ≡ (Writer.waits (entry_of x format now sql params) line, s)
  unfolding enter_record
  enter_running sql params line runs encoded = ground arith

  enters-IsSafe :
      (sql : Text) (params : List Value)
      → at k ≡ Writer.enters sql params
      → Goes x format at at' k (settled (enter_record x format now sql params s).0)
      → IsSafe x format es at' (enter_record x format now sql params s).1
  enters-IsSafe sql params here g =
      let (line, encoded, is_line) =
        json.encodes (entry_of x format now sql params)
          (unfold entry_of in subst (IsReady x format) here (h.ready k)) in
      elim (Bool-cases s.journal.running) [
        | inr stopped ↦
            let e = enter_stopped sql params stopped in
            rw e (
              quiet-IsSafe x format es at at' k (Writer.returned (ok tt)) s s (rw e at g)
                (ap holds here) refl tt refl (refl, refl, refl) h)
        | inl runs ↦
            let e = enter_running sql params line runs encoded in
            rw e (
              quiet-IsSafe x format es at at' k
                (Writer.waits (entry_of x format now sql params) line) s s (rw e at g)
                (ap holds here) refl is_line refl (refl, refl, refl) h)
      ]

  -- A call that waits for the lock, and takes it where it is open.
  lock-IsSafe :
      (waiting holding : Writer)
      → at k ≡ waiting
      → holds waiting ≡ false
      → holds holding ≡ true
      → settled waiting ≡ waiting
      → settled holding ≡ holding
      → IsReady x format holding
      → (Carries format es s.journal
          → s.journal.buffer ≡ []
          → Content x format es holding s.journal)
      → Goes x format at at' k (settled (lock waiting holding s).0)
      → IsSafe x format es at' (lock waiting holding s).1
  unfolding lock
  lock-IsSafe waiting holding here outside inside same same' r content g =
      elim (Bool-cases s.locked) [
        | inl shut ↦
            let e : lock waiting holding s ≡ (waiting, s) = ground arith in
            rw e (
              quiet-IsSafe x format es at at' k waiting s s (rw (e, same) at g)
                (ap holds here ∙ outside) outside (subst (IsReady x format) here (h.ready k)) refl
                (refl, refl, refl) h)
        | inr free ↦
            let e : lock waiting holding s ≡ (holding, record s { locked = true }) = ground arith in
            rw e (
              take-IsSafe x format es at at' k holding s (record s { locked = true })
                (rw (e, same') at g) r h free refl inside content)
      ]

  writes-IsSafe :
      (e : WriteEntry) (line : Text)
      → at k ≡ Writer.writes e line
      → Goes x format at at' k (settled (write_locked x format e line s).0)
      → IsSafe x format es at' (write_locked x format e line s).1
  unfolding write_locked
  writes-IsSafe e line here g =
      let d = owner x format es at k s h (ap holds here) in
      let (carried, empty) =
        subst (λ (v : Writer). Content x format es v s.journal) here d.content in
      let is_line : IsLineOf format e line = subst (IsReady x format) here (h.ready k) in
      let k' = record s { journal = buffer_text (line ++ b'\n' ∷ []) s.journal } in
      let done : write_locked x format e line s ≡ (Writer.flushes e, k') =
        ground (arith, write_line-ok line s.journal carried.undisturbed) in
      rw done (
        keep-IsSafe x format es at at' k (Writer.flushes e) s k' (rw done at g) tt h (ap holds here)
          d.shut_lock refl (buffer_text-Carries format es e line s.journal is_line carried))

  -- A flush, with the entries that the journal carries before it.
  flush-IsSafe :
      (more : List WriteEntry)
      → holds (at k) ≡ true
      → Carries format (es ++ more) s.journal
      → Goes x format at at' k (settled (flush_locked x format s).0)
      → IsSafe x format (es ++ more) at' (flush_locked x format s).1
  unfolding flush_locked
  flush-IsSafe more held carried g =
      let f = flush-IsFlushed format (es ++ more) s.journal carried in
      drop-IsSafe x format es at at' k (Writer.returned (ok tt)) s (flush_locked x format s).1 g tt
        h more held refl refl f.carried f.emptied

  -- One access of any call.
  pub step-IsSafe :
      (t : Writer)
      → at k ≡ t
      → Goes x format at at' k (settled (step x format now t s).0)
      → IsSafe x format (es ++ flushed x format t) at' (step x format now t s).1
  unfolding step lower_running
  step-IsSafe (Writer.enters sql params) here g = none_flushed _ (enters-IsSafe sql params here g)
  step-IsSafe (Writer.waits e line) here g = none_flushed _ (
      lock-IsSafe (Writer.waits e line) (Writer.writes e line) here refl refl refl refl
        (subst (IsReady x format) here (h.ready k)) (λ c empty. (c, empty)) g)
  step-IsSafe (Writer.writes e line) here g = none_flushed _ (writes-IsSafe e line here g)
  step-IsSafe (Writer.flushes e) here g =
      let d = owner x format es at k s h (ap holds here) in
      flush-IsSafe (e ∷ []) (ap holds here)
        (subst (λ (v : Writer). Content x format es v s.journal) here d.content) g
  step-IsSafe Writer.stops here g = none_flushed _ (
      quiet-IsSafe x format es at at' k Writer.stop_waits s (lower_running x format s) g
        (ap holds here) refl tt refl (refl, refl, refl) h)
  step-IsSafe Writer.stop_waits here g = none_flushed _ (
      lock-IsSafe Writer.stop_waits Writer.stop_flushes here refl refl refl refl tt
        (λ c empty. (c, empty)) g)
  step-IsSafe Writer.stop_flushes here g =
      let d = owner x format es at k s h (ap holds here) in
      let (carried, empty) =
        subst (λ (v : Writer). Content x format es v s.journal) here d.content in
      flush-IsSafe [] (ap holds here) (rw (append-nil es) carried) g
  step-IsSafe (Writer.returned r) here g = none_flushed _ (
      quiet-IsSafe x format es at at' k (Writer.returned (ok tt)) s s g (ap holds here) refl tt refl
        (refl, refl, refl) h)
