-- ===== src/Hal/Nvs/Session.antt =====
-- Any calls on one handle of components/blusys/src/hal/nvs.c, one after the other.
use blusys.Base.{
  ℕ, ◌≤◌, ◌≡◌, ◌≢◌, refl, ap, ◌∙◌, true, Option, none, some, List, [], ◌∷◌, arith, ◌==◌, Bool-cases,
  inl, inr, if_both,
}
use blusys.Hal.Error.{BlusysErr, ok, EspErr, translate_esp_err}
use blusys.Hal.Nvs.Flash.{Text, Value, kind_of, room_of, Flash, IsLawful}
use blusys.Hal.Nvs.Defs.{
  Nvs, is_read_only, locked_call, changed, nvs_commit, nvs_erase_key, nvs_erase_all, set_value,
  get_value,
}

-- A call that may change the store, with the result of taking the lock.
pub data Operation : Type 0 where
  commit erase_all : BlusysErr → Operation
  erase_key : BlusysErr → Option Text → Operation
  set : BlusysErr → Option Text → Option Value → Operation

-- The calls do not name the key, and do not erase all.
unfoldable pub Avoids : Text → Operation → Type 0
Avoids key (commit lock_err) = Unit {0}
Avoids key (erase_all lock_err) = ⊥
Avoids key (erase_key lock_err other) = some key ≢ other
Avoids key (set lock_err other value) = some key ≢ other

unfoldable pub AllAvoid : Text → List Operation → Type 0
AllAvoid key [] = Unit {0}
AllAvoid key (op ∷ ops) = Avoids key op × AllAvoid key ops

translate-ok : (e : EspErr) → translate_esp_err e ≡ ok → e ≡ EspErr.esp_ok
unfolding translate_esp_err
translate-ok EspErr.esp_ok h = refl
translate-ok EspErr.invalid_arg h = absurd (ground (arith, h))
translate-ok EspErr.invalid_size h = absurd (ground (arith, h))
translate-ok EspErr.invalid_state h = absurd (ground (arith, h))
translate-ok EspErr.not_supported h = absurd (ground (arith, h))
translate-ok EspErr.timeout h = absurd (ground (arith, h))
translate-ok EspErr.no_mem h = absurd (ground (arith, h))
translate-ok EspErr.not_found h = absurd (ground (arith, h))
translate-ok EspErr.invalid_response h = absurd (ground (arith, h))
translate-ok EspErr.fail h = absurd (ground (arith, h))
translate-ok (EspErr.other n) h = absurd (ground (arith, h))

module _ {F : Type 0} (flash : Flash F) where
  unfoldable pub operate : Nvs → Operation → F → F
  operate nvs (commit lock_err) f = (nvs_commit flash lock_err (some nvs) f).1
  operate nvs (erase_all lock_err) f = (nvs_erase_all flash lock_err (some nvs) f).1
  operate nvs (erase_key lock_err key) f = (nvs_erase_key flash lock_err (some nvs) key f).1
  operate nvs (set lock_err key value) f = (set_value flash lock_err (some nvs) key value f).1

  unfoldable pub operates : Nvs → List Operation → F → F
  operates nvs [] f = f
  operates nvs (op ∷ ops) f = operates nvs ops (operate nvs op f)

  -- A change happens under the lock or not at all.
  changed-either :
      (P : F → Type 0) (lock_err : BlusysErr) (nvs : Nvs) (call : F → EspErr × F) (f : F)
      → P f
      → P (call f).1
      → P (changed flash lock_err nvs call f).1
  unfolding changed locked_call
  changed-either P lock_err nvs call f p q =
      if_both (λ (r : BlusysErr × F). P r.1) (is_read_only nvs.mode) p
        (if_both (λ (r : BlusysErr × F). P r.1) (lock_err == ok) q p)

  changed-ok :
      (lock_err : BlusysErr) (nvs : Nvs) (call : F → EspErr × F) (f : F)
      → (changed flash lock_err nvs call f).0 ≡ ok
      → ((call f).0 ≡ EspErr.esp_ok) × ((changed flash lock_err nvs call f).1 ≡ (call f).1)
  unfolding changed locked_call
  changed-ok lock_err nvs call f h = elim (Bool-cases (is_read_only nvs.mode)) [
    | inl k ↦ absurd (ground (arith, h, k))
    | inr k ↦ elim (Bool-cases (lock_err == ok)) [
      | inl e ↦ rw (k, e) (translate-ok (call f).0 (rw (k, e) at h), refl)
      | inr e ↦ absurd (ground (arith, h, k, e))
    ]
  ]

  module _ (entry : Text → F → Option Value) (lawful : IsLawful flash entry) where
    operate-entry :
        (nvs : Nvs) (op : Operation) (key : Text) (f : F)
        → Avoids key op
        → entry key (operate nvs op f) ≡ entry key f
    unfolding operate Avoids nvs_commit nvs_erase_key nvs_erase_all set_value
    operate-entry nvs (commit lock_err) key f a =
        changed-either (λ g. entry key g ≡ entry key f) lock_err nvs _ f refl
          (lawful.commit-same key f)
    operate-entry nvs (erase_all lock_err) key f a = absurd a
    operate-entry nvs (erase_key lock_err none) key f a = refl
    operate-entry nvs (erase_key lock_err (some other)) key f a =
        changed-either (λ g. entry key g ≡ entry key f) lock_err nvs _ f refl
          (lawful.erase_key-other other key f (λ e. a (ap some e)))
    operate-entry nvs (set lock_err none value) key f a = refl
    operate-entry nvs (set lock_err (some other) none) key f a = refl
    operate-entry nvs (set lock_err (some other) (some value)) key f a =
        changed-either (λ g. entry key g ≡ entry key f) lock_err nvs _ f refl
          (lawful.set-other other key value f (λ e. a (ap some e)))

    operates-entry :
        (nvs : Nvs) (ops : List Operation) (key : Text) (f : F)
        → AllAvoid key ops
        → entry key (operates nvs ops f) ≡ entry key f
    unfolding operates AllAvoid
    operates-entry nvs [] key f a = refl
    operates-entry nvs (op ∷ ops) key f (a, rest) =
        operates-entry nvs ops key (operate nvs op f) rest ∙ operate-entry nvs op key f a

    -- If the store behaves as documented, and a value is set on a key with success, then after any calls
    -- that neither name the key nor erase all, whatever fails in them, a getter of the value's type that
    -- has the lock and room for the value gives it.
    pub set_value-get_value :
        (nvs : Nvs) (lock_err : BlusysErr) (key : Text) (v : Value) (ops : List Operation)
        (room : ℕ) (f : F)
        → (set_value flash lock_err (some nvs) (some key) (some v) f).0 ≡ ok
        → AllAvoid key ops
        → room_of v ≤ room
        → get_value flash
            (kind_of v)
            ok
            (some nvs)
            (some key)
            true
            (some room)
            (operates nvs ops (set_value flash lock_err (some nvs) (some key) (some v) f).1)
          ≡ (ok, some v)
    unfolding set_value get_value translate_esp_err
    set_value-get_value nvs lock_err key v ops room f h a r =
        let (succeeded, after) = changed-ok lock_err nvs (flash.set key v) f h in
        let f1 = (changed flash lock_err nvs (flash.set key v) f).1 in
        let held : entry key (operates nvs ops f1) ≡ some v =
          operates-entry nvs ops key f1 a
          ∙ ap (entry key) after
          ∙ lawful.set-same key v f succeeded in
        ap (λ (x : EspErr × Option Value). (translate_esp_err x.0, x.1))
          (lawful.get-same key v room (operates nvs ops f1) held r)
