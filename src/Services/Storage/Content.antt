-- ===== src/Services/Storage/Content.antt =====
-- What the operations of components/blusys/src/services/internal/storage_helpers.c leave in the
-- files, if the C library's files behave as documented.
use mathlib.Core.List.{append-nil}
use blusys.Base.{
  ℕ, zero, suc, ◌%◌, ◌^◌, ◌≡◌, ◌≢◌, refl, sym, ◌∙◌, ap, Bool, true, false, Option, some, List, [],
  ◌∷◌, ◌++◌, ◌==◌, ltb, take, arith, Bool-cases, Option-cases, inl, inr, if_true, if_false,
}
use blusys.Hal.Error.{BlusysErr, ok, blusys_err}
use blusys.Services.Storage.Vfs.{Text, Mode, Vfs, opened_content, IsLawful}
use blusys.Services.Storage.Helpers.{State, Operation, storage_fail, open_failed, write_short}
use blusys.Services.Storage.Files.{close_file, check_written, write_open_file, write_file}

-- An error of the storage domain is not BLUSYS_OK.
pub blusys_err-ne-ok :
    (domain code : ℕ) → (code % 2 ^ 16 == 0) ≡ false → blusys_err domain code ≢ ok
unfolding blusys_err
blusys_err-ne-ok domain code h e = absurd (ground (arith, h, e))

first-eq : (a b : Bool) (xs ys : List Bool) → a ∷ xs ≡ b ∷ ys → a ≡ b
first-eq a b xs ys e = cc

take-take : (n : ℕ) (xs : List ℕ) → take n (take n xs) ≡ take n xs
take-take zero xs = refl
take-take (suc n) [] = refl
take-take (suc n) (x ∷ xs) = ap (λ (l : List ℕ). x ∷ l) (take-take n xs)

module _ {F : Type 0} (vfs : Vfs F) (content : Text → F → Option (List ℕ)) where
  -- If it succeeds, the file will hold this once it is closed with success.
  abbrev pub Leaves : Text → Option (List ℕ) → BlusysErr × State F → Type 0
  Leaves full value r = r.0 ≡ ok → content full r.1.files ≡ value

  -- If it succeeds and the file has been closed with success, the file holds this.
  abbrev pub Keeps : Text → Option (List ℕ) → List Bool → BlusysErr × State F → Type 0
  Keeps full value before r = r.0 ≡ ok → r.1.closes ≡ true ∷ before → content full r.1.files ≡ value

  pub storage_fail-Leaves :
      (domain code : ℕ) (op : Operation) (path : Option Text) (s : State F) (full : Text)
      (value : Option (List ℕ))
      → (code % 2 ^ 16 == 0) ≡ false
      → Leaves full value (storage_fail domain code op path s)
  unfolding storage_fail
  storage_fail-Leaves domain code op path s full value h e =
      absurd (blusys_err-ne-ok domain code h e)

module _ {F : Type 0} (vfs : Vfs F) (content : Text → F → Option (List ℕ))
    (laws : IsLawful vfs content) where
  close_file-Keeps :
      (full : Text) (value : Option (List ℕ)) (before : List Bool) (r : BlusysErr × State F)
      → Leaves vfs content full value r
      → Keeps vfs content full value before (close_file vfs full r)
  unfolding close_file
  close_file-Keeps full value before (err, s) h e c =
      laws.fclose-same full s.files (first-eq _ true s.closes before c) ∙ h e

  open_file-Keeps :
      (op : Operation) (domain : ℕ) (full : Text) (path : Option Text) (bytes old : List ℕ)
      (size : ℕ) (before : List Bool) (s : State F)
      → content full s.files ≡ some old
      → Keeps vfs content full
          (some (old ++ take size bytes))
          before
          (write_open_file vfs op domain full path bytes size s)
  unfolding write_open_file check_written
  open_file-Keeps op domain full path bytes old size before s held =
      let value = some (old ++ take size bytes) in
      let wrote = vfs.fwrite full (take size bytes) s.files in
      close_file-Keeps full value before _ (elim (Bool-cases (ltb 0 size)) [
        | inl e ↦
            if_true (Leaves vfs content full value) (ltb 0 size) _ _ e
              (elim (Bool-cases (wrote.0 == size)) [
                | inl k ↦
                    let all : wrote.0 ≡ size = ground (arith, k) in
                    if_true (Leaves vfs content full value) (wrote.0 == size) _ _ k (λ z.
                      laws.fwrite-same full (take size bytes) old s.files held
                      ∙ ap (λ (n : ℕ). some (old ++ take n (take size bytes))) all
                      ∙ ap (λ (l : List ℕ). some (old ++ l)) (take-take size bytes))
                | inr k ↦
                    if_false (Leaves vfs content full value) (wrote.0 == size) _ _ k
                      (storage_fail-Leaves vfs content domain write_short op path _ full value refl)
              ])
        | inr e ↦
            let empty : size ≡ 0 = ground (arith, e) in
            if_false (Leaves vfs content full value) (ltb 0 size) _ _ e (λ z.
              held
              ∙ ap (λ (l : List ℕ). some l) (sym (append-nil old))
              ∙ ap (λ (n : ℕ). some (old ++ take n bytes)) (sym empty))
      ])

  pub write_file-Keeps :
      (mode : Mode) (op : Operation) (lock : BlusysErr) (domain : ℕ) (full : Text)
      (path : Option Text) (bytes old : List ℕ) (size : ℕ) (before : List Bool) (s : State F)
      → opened_content mode (content full s.files) ≡ some old
      → Keeps vfs content full
          (some (old ++ take size bytes))
          before
          (write_file vfs mode op (some lock) domain (some full) path (some bytes) size s)
  unfolding write_file
  write_file-Keeps mode op lock domain full path bytes old size before s held =
      let value = some (old ++ take size bytes) in
      elim (Bool-cases (lock == ok)) [
        | inl e ↦
            if_true (Keeps vfs content full value before) (lock == ok) _ _ e
              (elim (Option-cases (vfs.fopen mode full s.files)) [
                | inl n ↦ rw n (λ z c.
                    storage_fail-Leaves vfs content domain open_failed op path _ full value refl z)
                | inr (files, o) ↦ rw o (
                    open_file-Keeps op domain full path bytes old size before _
                      (laws.fopen-same mode full s.files files o ∙ held))
              ])
        | inr e ↦
            if_false (Keeps vfs content full value before) (lock == ok) _ _ e
              (λ z c. absurd (ground (arith, e, z)))
      ]
