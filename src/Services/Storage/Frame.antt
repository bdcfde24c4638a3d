-- ===== src/Services/Storage/Frame.antt =====
-- What a call of components/blusys/src/services/storage/fs.c leaves alone: the other files, the
-- lock, and the counters, but for a failure, which it counts twice.
use blusys.Base.{ℕ, ◌≡◌, ◌≢◌, refl, sym, Option, List, [], ◌∷◌, ◌++◌, arith}
use blusys.Hal.Error.{BlusysErr}
use blusys.Services.Storage.Vfs.{Text, Vfs, IsLawful}
use blusys.Services.Storage.Helpers.{State, joined}
use blusys.Services.Storage.Fs.{Fs}
use blusys.Services.Storage.RoundTrip.{at}
use blusys.Services.Storage.Spares.{Spares, SparesOf}

append-left : (base xs ys : Text) → base ++ xs ≡ base ++ ys → xs ≡ ys
append-left [] xs ys e = e
append-left (b ∷ base) xs ys e = append-left base xs ys (ground (arith, e))

longer : (base : Text) (x : ℕ) (xs : Text) → base ++ x ∷ xs ≢ base
longer [] x xs e = cc
longer (b ∷ base) x xs e = longer base x xs (ground (arith, e))

-- Different paths of a client stand at different full paths.
at-ne : (h : Fs) (p q : Text) → q ≢ p → at h q ≢ at h p
unfolding joined
at-ne h [] [] ne e = ne refl
at-ne h [] (c ∷ q) ne e = longer (h.base_path) b'/' (c ∷ q) e
at-ne h (c ∷ p) [] ne e = longer (h.base_path) b'/' (c ∷ p) (sym e)
at-ne h (c ∷ p) (d ∷ q) ne e =
    ne (ground (arith, append-left (h.base_path) (b'/' ∷ d ∷ q) (b'/' ∷ c ∷ p) e))

module _ {F : Type 0} (vfs : Vfs F) (content : Text → F → Option (List ℕ))
    (laws : IsLawful vfs content) (h : Fs) (path q : Text) (ne : q ≢ path) (s : State F) where
  abbrev SparesAt : BlusysErr × State F → Type 0
  SparesAt = SparesOf vfs content laws (at h path) (at h q) (at-ne h path q ne) s.held s
