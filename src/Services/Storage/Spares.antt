-- ===== src/Services/Storage/Spares.antt =====
-- What the operations of components/blusys/src/services/internal/storage_helpers.c leave alone: the
-- other files, the lock, and the counters, but for a failure, which they count twice.
use blusys.Base.{
  ℕ, ◌+◌, ◌-◌, ◌≡◌, ◌≢◌, ◌⊎◌, refl, ◌∙◌, ap, Bool, true, Option, some, List, ◌==◌, ltb, take, arith,
  Option-cases, inl, inr, if_both,
}
use blusys.Hal.Error.{BlusysErr, ok, err_domain_storage_fs, blusys_err}
use blusys.Observe.Counter.{Counters, counter_inc}
use blusys.Observe.Log.Lines.{counters-log_v_error}
use blusys.Services.Storage.Vfs.{Text, Mode, reading, Vfs, IsLawful}
use blusys.Services.Storage.Helpers.{
  State, Operation, storage_fail, fail_message, counters_of, with_unlock, op_read, op_remove,
  op_size,
}
use blusys.Services.Storage.Files.{
  close_file, check_written, write_open_file, write_file, storage_read, storage_remove,
  storage_exists, storage_size,
}

-- What a call leaves of a state in which the lock is held so often, these are the counters, and the file at q holds
-- this: either nothing is counted, or the error is one of the storage domain and is counted twice there, by the failure and by
-- its line of the log.
pub record Spares {F : Type 0} (content : Text → F → Option (List ℕ)) (q : Text)
    (bytes : Option (List ℕ)) (held : ℕ) (counters : Counters) (r : BlusysErr × State F)
    : Type 0 where
  pub same_lock : r.1.held ≡ held
  pub same_file : content q r.1.files ≡ bytes
  pub counted :
      (counters_of r.1 ≡ counters)
      ⊎ ((code : ℕ) × (r.0 ≡ blusys_err err_domain_storage_fs code)
          × (counters_of r.1
              ≡ counter_inc (counter_inc counters err_domain_storage_fs 1) err_domain_storage_fs 1))

module _ {F : Type 0} (vfs : Vfs F) (content : Text → F → Option (List ℕ))
    (laws : IsLawful vfs content) (full q : Text) (other : q ≢ full) where
  abbrev pub SparesOf : ℕ → State F → BlusysErr × State F → Type 0
  SparesOf held s r = Spares content q (content q s.files) held (counters_of s) r

  uncounted :
      (held : ℕ) (s : State F) (err : BlusysErr) (s' : State F)
      → s'.held ≡ held
      → content q s'.files ≡ content q s.files
      → counters_of s' ≡ (counters_of s)
      → SparesOf held s (err, s')
  uncounted held s err s' h f c = record { same_lock = h; same_file = f; counted = inl c }

  pub counted_twice :
      (held : ℕ) (s : State F) (code : ℕ) (op : Operation) (path : Option Text) (s' : State F)
      → s'.held ≡ held
      → content q s'.files ≡ content q s.files
      → counters_of s' ≡ (counters_of s)
      → SparesOf held s (storage_fail err_domain_storage_fs code op path s')
  unfolding storage_fail
  counted_twice held s code op path s' h f c = record {
    same_lock = h;
    same_file = f;
    counted = inr (
      code,
      refl,
      counters-log_v_error err_domain_storage_fs (fail_message code op path) _
          ∙ ap
              (λ (g : Counters).
                counter_inc (counter_inc g err_domain_storage_fs 1) err_domain_storage_fs 1)
              c,
    );
  }

  close_file-Spares :
      (s : State F) (r : BlusysErr × State F)
      → SparesOf (s.held + 1) s r
      → SparesOf s.held s (close_file vfs full r)
  unfolding close_file
  close_file-Spares s (err, t) r = record {
    same_lock = omega (arith, r.same_lock);
    same_file = laws.fclose-other full q t.files other ∙ r.same_file;
    counted = r.counted;
  }

  gave :
      (s : State F) (r : BlusysErr × State F)
      → SparesOf (s.held + 1) s r
      → SparesOf s.held s (r.0, with_unlock r.1)
  gave s (err, t) r = record {
    same_lock = omega (arith, r.same_lock);
    same_file = r.same_file;
    counted = r.counted;
  }

  given_back : (s : State F) → s.held + 1 - 1 ≡ s.held
  given_back s = omega arith

  pub write_file-Spares :
      (mode : Mode) (op : Operation) (lock : BlusysErr) (path : Option Text) (bytes : List ℕ)
      (size : ℕ) (s : State F)
      → SparesOf s.held s (
          write_file vfs mode op
            (some lock)
            err_domain_storage_fs
            (some full)
            path
            (some bytes)
            size
            s)
  unfolding write_file write_open_file check_written
  write_file-Spares mode op lock path bytes size s =
      if_both (SparesOf s.held s) (lock == ok)
        (elim (Option-cases (vfs.fopen mode full s.files)) [
          | inl n ↦ rw n (counted_twice s.held s _ op path _ (given_back s) refl refl)
          | inr (files, o) ↦
              let kept = laws.fopen-other mode full q s.files files o other in
              let wrote = laws.fwrite-other full q (take size bytes) files other ∙ kept in
              rw o (
                close_file-Spares s _ (
                  if_both (SparesOf (s.held + 1) s) (ltb 0 size)
                    (if_both (SparesOf (s.held + 1) s)
                      ((vfs.fwrite full (take size bytes) files).0 == size)
                      (uncounted (s.held + 1) s ok _ refl wrote refl)
                      (counted_twice (s.held + 1) s _ op path _ refl wrote refl))
                    (uncounted (s.held + 1) s ok _ refl kept refl)))
        ])
        (uncounted s.held s lock s refl refl refl)

  abbrev pub ends : {A : Type 0} → BlusysErr × A × State F → BlusysErr × State F
  ends (err, a, s) = (err, s)

  pub storage_read-Spares :
      (lock : BlusysErr) (path : Option Text) (size : ℕ) (s : State F)
      → SparesOf s.held s (
          ends
            (storage_read vfs (some lock) err_domain_storage_fs (some full) path true size true s))
  unfolding storage_read
  storage_read-Spares lock path size s =
      if_both (λ (r : BlusysErr × Option (List ℕ) × State F). SparesOf s.held s (ends r))
        (lock == ok)
        (elim (Option-cases (vfs.fopen reading full s.files)) [
          | inl n ↦ rw n (counted_twice s.held s _ op_read path _ (given_back s) refl refl)
          | inr (files, o) ↦
              let kept = laws.fopen-other reading full q s.files files o other in
              rw o (
                close_file-Spares s _ (
                  if_both (SparesOf (s.held + 1) s) ((vfs.fread full size files).1)
                    (counted_twice (s.held + 1) s _ op_read path _ refl kept refl)
                    (uncounted (s.held + 1) s ok _ refl kept refl)))
        ])
        (uncounted s.held s lock s refl refl refl)

  pub storage_remove-Spares :
      (lock : BlusysErr) (path : Option Text) (s : State F)
      → SparesOf s.held s (storage_remove vfs (some lock) err_domain_storage_fs (some full) path s)
  unfolding storage_remove
  storage_remove-Spares lock path s =
      let kept = laws.remove-other full q s.files other in
      if_both (SparesOf s.held s) (lock == ok)
        (gave s _ (
          if_both (SparesOf (s.held + 1) s) ((vfs.remove full s.files).0)
            (uncounted (s.held + 1) s ok _ refl kept refl)
            (counted_twice (s.held + 1) s _ op_remove path _ refl kept refl)))
        (uncounted s.held s lock s refl refl refl)

  pub storage_exists-Spares :
      (lock : BlusysErr) (s : State F)
      → SparesOf s.held s (ends (storage_exists vfs (some lock) (some full) true s))
  unfolding storage_exists
  storage_exists-Spares lock s =
      if_both (λ (r : BlusysErr × Option Bool × State F). SparesOf s.held s (ends r)) (lock == ok)
        (uncounted s.held s ok _ (given_back s) refl refl)
        (uncounted s.held s lock s refl refl refl)

  pub storage_size-Spares :
      (lock : BlusysErr) (path : Option Text) (s : State F)
      → SparesOf s.held s
          (ends (storage_size vfs (some lock) err_domain_storage_fs (some full) path true s))
  unfolding storage_size
  storage_size-Spares lock path s =
      if_both (λ (r : BlusysErr × Option ℕ × State F). SparesOf s.held s (ends r)) (lock == ok)
        (elim (Option-cases (vfs.stat full s.files)) [
          | inl n ↦ rw n (counted_twice s.held s _ op_size path _ (given_back s) refl refl)
          | inr (n, o) ↦ rw o (uncounted s.held s ok _ (given_back s) refl refl)
        ])
        (uncounted s.held s lock s refl refl refl)
