-- ===== src/Services/Storage/Memory.antt =====
-- Files in memory, which show that the behaviour assumed of the C library can be met.
use blusys.Base.{
  ℕ, ◌≡◌, ◌≢◌, refl, sym, ◌∙◌, ap, true, false, Option, none, some, List, [], ◌∷◌, ◌++◌,
  if◌then◌else◌, take, length, arith, Option-cases, inl, inr,
}
use blusys.Base.Texts.{same, same_self, same-ne}
use blusys.Services.Storage.Vfs.{
  Text, Mode, writing, reading, appending, created, Vfs, opened_content, IsLawful,
}

-- A file system holds bytes at some paths.
abbrev pub Memory : Type 0
Memory = Text → Option (List ℕ)

take-length : (xs : List ℕ) → take (length xs) xs ≡ xs
take-length [] = refl
take-length (x ∷ xs) = ap (λ (l : List ℕ). x ∷ l) (take-length xs)

unfoldable pub put : Text → Option (List ℕ) → Memory → Memory
put p bytes f q = if same q p then bytes else f q

put_self : (p : Text) (bytes : Option (List ℕ)) (f : Memory) → put p bytes f p ≡ bytes
unfolding put
put_self p bytes f = rw (same_self p) refl

put_other : (p q : Text) (bytes : Option (List ℕ)) (f : Memory) → q ≢ p → put p bytes f q ≡ f q
unfolding put
put_other p q bytes f ne = rw (same-ne q p ne) refl

abbrev pub held : Option (List ℕ) → List ℕ
held none = []
held (some bytes) = bytes

unfoldable pub open_file : Mode → Text → Memory → Option Memory
open_file writing p f = some (put p (some []) f)
open_file reading p f = elim (f p) as (λ x. Option Memory) [ none ↦ none | some bytes ↦ some f ]
open_file appending p f = some (put p (some (held (f p))) f)

abbrev pub memory : Vfs Memory
memory = record {
  fopen = open_file;
  fwrite = λ p bytes f. (length bytes, put p (some (held (f p) ++ bytes)) f);
  fread = λ p size f. (take size (held (f p)), false);
  fclose = λ p f. (true, f);
  remove = λ p f. (true, put p none f);
  stat = λ p f. elim (f p) as (λ x. Option ℕ) [ none ↦ none | some bytes ↦ some (length bytes) ];
  mkdir = λ p f. (created, f);
  readdir = λ p f. some [];
}

abbrev pub memory_content : Text → Memory → Option (List ℕ)
memory_content p f = f p

held_opened : (o : Option (List ℕ)) → some (held o) ≡ opened_content appending o
unfolding opened_content
held_opened none = refl
held_opened (some bytes) = refl

some-inj : (x y : Memory) → some x ≡ some y → x ≡ y
some-inj x y e = cc

open_file-same :
    (mode : Mode) (p : Text) (f f' : Memory)
    → open_file mode p f ≡ some f'
    → f' p ≡ opened_content mode (f p)
unfolding open_file opened_content
open_file-same writing p f f' h =
    ap (λ (g : Memory). g p) (sym (some-inj _ f' h)) ∙ put_self p (some []) f
open_file-same reading p f f' h = elim (Option-cases (f p)) [
  | inl e ↦ absurd (ground (arith, rw (open_file, e) at h))
  | inr (bytes, e) ↦ ap (λ (g : Memory). g p) (sym (some-inj f f' (rw (open_file, e) at h)))
]
open_file-same appending p f f' h =
    ap (λ (g : Memory). g p) (sym (some-inj _ f' h))
    ∙ put_self p (some (held (f p))) f
    ∙ held_opened (f p)

open_file-other :
    (mode : Mode) (p q : Text) (f f' : Memory) → open_file mode p f ≡ some f' → q ≢ p → f' q ≡ f q
unfolding open_file
open_file-other writing p q f f' h ne =
    ap (λ (g : Memory). g q) (sym (some-inj _ f' h)) ∙ put_other p q (some []) f ne
open_file-other reading p q f f' h ne = elim (Option-cases (f p)) [
  | inl e ↦ absurd (ground (arith, rw (open_file, e) at h))
  | inr (bytes, e) ↦ ap (λ (g : Memory). g q) (sym (some-inj f f' (rw (open_file, e) at h)))
]
open_file-other appending p q f f' h ne =
    ap (λ (g : Memory). g q) (sym (some-inj _ f' h)) ∙ put_other p q (some (held (f p))) f ne

-- Files in memory behave as documented.
pub memory-IsLawful : IsLawful memory memory_content
memory-IsLawful = record {
  fopen-same = open_file-same;
  fopen-other = open_file-other;
  fwrite-same = λ p bytes old f h.
      put_self p (some (held (f p) ++ bytes)) f
      ∙ ap (λ (o : Option (List ℕ)). some (held o ++ bytes)) h
      ∙ ap (λ (l : List ℕ). some (old ++ l)) (sym (take-length bytes));
  fwrite-other = λ p q bytes f ne. put_other p q (some (held (f p) ++ bytes)) f ne;
  fclose-same = λ p f h. refl;
  fclose-other = λ p q f ne. refl;
  fread-same = λ p size bytes f h e. ap (λ (o : Option (List ℕ)). take size (held o)) h;
  remove-same = λ p f h. put_self p none f;
  remove-other = λ p q f ne. put_other p q none f ne;
}
