-- ===== src/Hal/Nvs/Opened.antt =====
-- What opening a handle of components/blusys/src/hal/nvs.c takes, and failing or closing gives
-- back.
use blusys.Base.{
  ℕ, zero, suc, ◌≡◌, refl, Bool, not, Option, none, some, [], ◌∷◌, ◌==◌, if◌then◌else◌, inl, inr,
  Bool-cases, if_both, if_false,
}
use blusys.Hal.Error.{ok}
use blusys.Hal.Result.{Returned, done, fail}
use blusys.Hal.Nvs.Flash.{Text}
use blusys.Hal.Nvs.Defs.{Mode, Nvs}
use blusys.Hal.Nvs.Open.{
  FlashInit, no_free_pages, new_version_found, returns, Trace, Env, allocated, freed, lock_init,
  lock_deinit, open_namespace, close_namespace, is_made, ensure_init, open_nvs_handle, nvs_open,
  nvs_close,
}

-- Blocks of the heap, mutexes, and open namespaces.
pub record Resources : Type 0 where
  pub blocks : ℕ
  pub mutexes : ℕ
  pub namespaces : ℕ

abbrev taken : Bool → ℕ → ℕ
taken b n = if b then suc n else n

abbrev less : ℕ → ℕ
less zero = zero
less (suc n) = n

-- What the calls of a trace have taken and not given back.
unfoldable pub owned : Trace → Resources
owned [] = record { blocks = 0; mutexes = 0; namespaces = 0 }
owned (allocated ∷ t) = record (owned t) { blocks = suc (owned t).blocks }
owned (freed ∷ t) = record (owned t) { blocks = less (owned t).blocks }
owned (lock_init err ∷ t) = record (owned t) { mutexes = taken (err == ok) (owned t).mutexes }
owned (lock_deinit ∷ t) = record (owned t) { mutexes = less (owned t).mutexes }
owned (open_namespace name mode e ∷ t) = record (owned t) {
  namespaces = taken (is_made e) (owned t).namespaces;
}
owned (close_namespace ∷ t) = record (owned t) { namespaces = less (owned t).namespaces }
owned (c ∷ t) = owned t

-- Failing gives everything back, and so does closing what opening has given.
abbrev pub GivesBack : Trace → Returned Nvs × Trace → Type 0
GivesBack t (done nvs, t') = owned (nvs_close ok (some nvs) t').1 ≡ owned t
GivesBack t (fail err, t') = owned t' ≡ owned t

-- Preparing the flash takes nothing.
owned-ensure_init :
    (first again : FlashInit) (t : Trace) → owned (ensure_init first again t).1 ≡ owned t
unfolding owned ensure_init
owned-ensure_init no_free_pages again t = refl
owned-ensure_init new_version_found again t = refl
owned-ensure_init (returns e) again t = refl

open_nvs_handle-GivesBack :
    (env : Env) (name : Text) (mode : Mode) (t : Trace)
    → GivesBack t (open_nvs_handle env name mode t)
unfolding open_nvs_handle owned nvs_close
open_nvs_handle-GivesBack env name mode t =
    let t1 = lock_init env.init ∷ allocated ∷ t in
    let same = owned-ensure_init env.init_flash env.init_again t1 in
    if_both (GivesBack t) (not env.alloc) refl (elim (Bool-cases (env.init == ok)) [
      | inr e ↦ rw e (rw e refl)
      | inl e ↦ if_false (GivesBack t) (not (env.init == ok)) _ _ (rw e refl) (
          if_both (GivesBack t) (not ((ensure_init env.init_flash env.init_again t1).0 == ok))
            (rw (same, e) refl)
            (elim (Bool-cases (is_made env.open_nvs)) [
              | inr k ↦ rw k (rw (same, e, k) refl)
              | inl k ↦ rw k (rw (same, e, k) refl)
            ]))
    ])

-- A handle that cannot be opened has given back all that opening took; one that was opened gives it back
-- when it is closed.
pub nvs_open-GivesBack :
    (env : Env) (name : Option Text) (mode : Mode) (has_out : Bool) (t : Trace)
    → GivesBack t (nvs_open env name mode has_out t)
unfolding nvs_open
nvs_open-GivesBack env none mode has_out t = refl
nvs_open-GivesBack env (some name) mode has_out t =
    if_both (GivesBack t) (not has_out) refl (open_nvs_handle-GivesBack env name mode t)
