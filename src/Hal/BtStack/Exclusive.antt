-- ===== src/Hal/BtStack/Exclusive.antt =====
-- Any interleaving of the calls of components/blusys/src/hal/internal/bt_stack.c.
use mathlib.Core.Path.{subst}
use blusys.Base.{
  ◌≢◌, ℕ, zero, suc, if_true, if_false, ◌≡◌, refl, ◌∙◌, ap, sym, Bool, true, false, Option, none,
  some, List, [], ◌∷◌, arith, ◌==◌, if◌then◌else◌, Bool-cases, inl, inr, if_both,
}
use blusys.Hal.Error.{ok, err_busy}
use blusys.Hal.BtStack.{
  BtStackOwner, bluetooth, ble_gatt, usb_hid_ble, wifi_prov_ble, ble_hid_device, owner_value,
  Change, grant, withdraw, BtStack, Place, Turn, BtCall, acquire, release, start, lock_take,
  advance, System, step, steps, boot,
}

-- Grants and withdrawals alternate, a withdrawal is for the owner of the last grant, and the index
-- is the owner that they leave, if any.
pub data Alternates : Option BtStackOwner → List Change → Type 0 where
  free : Alternates none []
  granted :
      (owner : BtStackOwner) (changes : List Change)
      → Alternates none changes
      → Alternates (some owner) (grant owner ∷ changes)
  withdrawn :
      (owner : BtStackOwner) (changes : List Change)
      → Alternates (some owner) changes
      → Alternates none (withdraw owner ∷ changes)

unfoldable pub current : BtStack → Option BtStackOwner
current s = if s.owned then some s.owner else none

-- The task stands between taking the mutex and giving it back, and the mutex is the published one.
record Holds (s : BtStack) (task : ℕ) : Type 0 where
  inited : s.lock_inited ≡ true
  held : s.holder ≡ some task

-- What a task knows where it stands.
unfoldable Knows : BtStack → ℕ → Place → Type 0
Knows s task (Place.take_stack_lock o) = s.lock_inited ≡ true
Knows s task (Place.test_owned o) = Holds s task
Knows s task (Place.set_owner o) = Holds s task × (s.owned ≡ false)
Knows s task (Place.set_owned o) = Holds s task × (s.owned ≡ false) × (s.owner ≡ o)
Knows s task (Place.give_stack_lock result) = Holds s task
Knows s task (Place.take_lock_to_release o) = s.lock_inited ≡ true
Knows s task (Place.test_owner o) = Holds s task
Knows s task (Place.clear_owned o) = Holds s task × (s.owned ≡ true) × (s.owner ≡ o)
Knows s task Place.give_lock_released = Holds s task
Knows s task Place.outside = Unit {0}
Knows s task (Place.test_inited o) = Unit {0}
Knows s task (Place.init_lock o) = Unit {0}
Knows s task (Place.publish_lock o) = Unit {0}
Knows s task (Place.test_inited_to_release o) = Unit {0}

-- What a step of one task leaves to another.
record Frame (task : ℕ) (s s' : BtStack) : Type 0 where
  inited : s.lock_inited ≡ true → s'.lock_inited ≡ true
  held : Holds s task → (s'.holder ≡ s.holder) × (s'.owned ≡ s.owned) × (s'.owner ≡ s.owner)

Frame-refl : (task : ℕ) (s : BtStack) → Frame task s s
Frame-refl task s = record { inited = λ h. h; held = λ h. (refl, refl, refl) }

Frame-Holds : (task : ℕ) (s s' : BtStack) → Frame task s s' → Holds s task → Holds s' task
Frame-Holds task s s' f h = record { inited = f.inited h.inited; held = (f.held h).0 ∙ h.held }

Frame-Knows :
    (task : ℕ) (s s' : BtStack) (place : Place)
    → Frame task s s'
    → Knows s task place
    → Knows s' task place
unfolding Knows
Frame-Knows task s s' (Place.take_stack_lock o) f k = f.inited k
Frame-Knows task s s' (Place.test_owned o) f k = Frame-Holds task s s' f k
Frame-Knows task s s' (Place.set_owner o) f (h, e) = (Frame-Holds task s s' f h, (f.held h).1 ∙ e)
Frame-Knows task s s' (Place.set_owned o) f (h, e, i) =
    (Frame-Holds task s s' f h, (f.held h).1 ∙ e, (f.held h).2 ∙ i)
Frame-Knows task s s' (Place.give_stack_lock result) f k = Frame-Holds task s s' f k
Frame-Knows task s s' (Place.take_lock_to_release o) f k = f.inited k
Frame-Knows task s s' (Place.test_owner o) f k = Frame-Holds task s s' f k
Frame-Knows task s s' (Place.clear_owned o) f (h, e, i) =
    (Frame-Holds task s s' f h, (f.held h).1 ∙ e, (f.held h).2 ∙ i)
Frame-Knows task s s' Place.give_lock_released f k = Frame-Holds task s s' f k
Frame-Knows task s s' Place.outside f k = tt
Frame-Knows task s s' (Place.test_inited o) f k = tt
Frame-Knows task s s' (Place.init_lock o) f k = tt
Frame-Knows task s s' (Place.publish_lock o) f k = tt
Frame-Knows task s s' (Place.test_inited_to_release o) f k = tt

-- Of two tasks, one at most holds the mutex: what the holder writes, it writes alone.
Holds-Frame :
    (task other : ℕ) (s s' : BtStack)
    → task ≢ other
    → Holds s task
    → s'.lock_inited ≡ s.lock_inited
    → Frame other s s'
Holds-Frame task other s s' ne h e = record {
  inited = λ i. e ∙ i;
  held = λ i. absurd (ground (arith, ne, h.held, i.held));
}

unfoldable owner_of_value : ℕ → BtStackOwner
owner_of_value zero = bluetooth
owner_of_value (suc zero) = ble_gatt
owner_of_value (suc (suc zero)) = usb_hid_ble
owner_of_value (suc (suc (suc zero))) = wifi_prov_ble
owner_of_value (suc (suc (suc (suc n)))) = ble_hid_device

owner_of_value-owner_value : (a : BtStackOwner) → owner_of_value (owner_value a) ≡ a
unfolding owner_value owner_of_value
owner_of_value-owner_value bluetooth = refl
owner_of_value-owner_value ble_gatt = refl
owner_of_value-owner_value usb_hid_ble = refl
owner_of_value-owner_value wifi_prov_ble = refl
owner_of_value-owner_value ble_hid_device = refl

value-eq : (a b : BtStackOwner) → (owner_value a == owner_value b) ≡ true → a ≡ b
value-eq a b e =
    let same : owner_value a ≡ owner_value b = ground (arith, e) in
    sym (owner_of_value-owner_value a) ∙ ap owner_of_value same ∙ owner_of_value-owner_value b

-- A step of a task, for itself, for another one and for the history.
record Good (turn : Turn) (s : BtStack) (r : BtStack × Place) : Type 0 where
  knows : Knows r.0 turn.task r.1
  frames : (other : ℕ) → turn.task ≢ other → Frame other s r.0
  alternates : Alternates (current s) s.changes → Alternates (current r.0) r.0.changes

same-Good :
    (turn : Turn) (s : BtStack) (place : Place) → Knows s turn.task place → Good turn s (s, place)
same-Good turn s place k = record {
  knows = k;
  frames = λ other ne. Frame-refl other s;
  alternates = λ a. a;
}

take_free-Good :
    (turn : Turn) (waiting taken : Place) (s : BtStack) (holder : Option ℕ)
    → s.holder ≡ holder
    → s.lock_inited ≡ true
    → Knows s turn.task waiting
    → ((s' : BtStack) → Holds s' turn.task → Knows s' turn.task taken)
    → Good turn s (elim holder [
      | none ↦ (record s { holder = some turn.task }, taken)
      | some task ↦ (s, waiting)
    ])
unfolding current
take_free-Good turn waiting taken s none e i k t = record {
  knows = t _ (record { inited = i; held = refl });
  frames = λ other ne. record { inited = λ h. h; held = λ h. absurd (ground (arith, e, h.held)) };
  alternates = λ a. a;
}
take_free-Good turn waiting taken s (some task) e i k t = same-Good turn s waiting k

lock_take-Good :
    (turn : Turn) (waiting taken : Place) (s : BtStack)
    → s.lock_inited ≡ true
    → Knows s turn.task waiting
    → ((s' : BtStack) → Holds s' turn.task → Knows s' turn.task taken)
    → Good turn s (lock_take turn waiting taken s)
unfolding lock_take Knows
lock_take-Good turn waiting taken s i k t =
    if_both (Good turn s) (turn.lock_err == ok)
      (take_free-Good turn waiting taken s s.holder refl i k t) (same-Good turn s Place.outside tt)

branch-Good :
    (turn : Turn) (b : Bool) (s : BtStack) (x y : Place)
    → (b ≡ true → Knows s turn.task x)
    → (b ≡ false → Knows s turn.task y)
    → Good turn s (s, if b then x else y)
branch-Good turn true s x y p q = same-Good turn s x (p refl)
branch-Good turn false s x y p q = same-Good turn s y (q refl)

publish-Good :
    (turn : Turn) (o : BtStackOwner) (s : BtStack)
    → Good turn s (
      if s.lock_inited then s else record s { lock_inited = true; holder = none },
      Place.take_stack_lock o,
    )
unfolding Knows current
publish-Good turn o s = elim (Bool-cases s.lock_inited) [
  | inl e ↦
      if_true (λ (t : BtStack). Good turn s (t, Place.take_stack_lock o)) (s.lock_inited) _ _ e
        (same-Good turn s _ e)
  | inr e ↦
      if_false (λ (t : BtStack). Good turn s (t, Place.take_stack_lock o)) (s.lock_inited) _ _ e
        (record {
          knows = refl;
          frames = λ other ne. record {
            inited = λ h. refl;
            held = λ h. absurd (ground (arith, e, h.inited));
          };
          alternates = λ a. a;
        })
]

current_free : (s : BtStack) → s.owned ≡ false → current s ≡ none
unfolding current
current_free s e = rw e refl

current_owned : (s : BtStack) → s.owned ≡ true → current s ≡ some s.owner
unfolding current
current_owned s e = rw e refl

start-Good : (turn : Turn) (s : BtStack) (call : BtCall) → Good turn s (s, start call)
unfolding start Knows
start-Good turn s (acquire o) = same-Good turn s _ tt
start-Good turn s (release o) = same-Good turn s _ tt

advance-Good :
    (turn : Turn) (place : Place) (s : BtStack)
    → Knows s turn.task place
    → Good turn s (advance turn place s)
unfolding advance Knows current start
advance-Good turn Place.outside s k = start-Good turn s turn.call
advance-Good turn (Place.test_inited o) s k =
    branch-Good turn s.lock_inited s (Place.take_stack_lock o) (Place.init_lock o) (λ e. e)
      (λ e. tt)
advance-Good turn (Place.init_lock o) s k =
    if_both (λ (p : Place). Good turn s (s, p)) (turn.lock_err == ok) (same-Good turn s _ tt)
      (same-Good turn s _ tt)
advance-Good turn (Place.publish_lock o) s k = publish-Good turn o s
advance-Good turn (Place.take_stack_lock o) s k = lock_take-Good turn _ _ s k k (λ s' h. h)
advance-Good turn (Place.test_owned o) s k =
    branch-Good turn _ s (Place.give_stack_lock err_busy) (Place.set_owner o) (λ e. k) (λ e. (k, e))
advance-Good turn (Place.set_owner o) s (h, e) = record {
  knows = (record { inited = h.inited; held = h.held }, e, refl);
  frames = λ other ne. Holds-Frame turn.task other s _ ne h refl;
  alternates = λ a.
      subst (λ c. Alternates c s.changes)
        (current_free s e ∙ sym (current_free (record s { owner = o }) e)) a;
}
advance-Good turn (Place.set_owned o) s (h, e, i) = record {
  knows = record { inited = h.inited; held = h.held };
  frames = λ other ne. Holds-Frame turn.task other s _ ne h refl;
  alternates = λ a.
      subst (λ c. Alternates (some c) (grant o ∷ s.changes)) (sym i)
        (granted o s.changes (subst (λ c. Alternates c s.changes) (current_free s e) a));
}
advance-Good turn (Place.give_stack_lock result) s k = record {
  knows = tt;
  frames = λ other ne. Holds-Frame turn.task other s _ ne k refl;
  alternates = λ a. a;
}
advance-Good turn (Place.test_inited_to_release o) s k =
    branch-Good turn s.lock_inited s (Place.take_lock_to_release o) Place.outside (λ e. e) (λ e. tt)
advance-Good turn (Place.take_lock_to_release o) s k = lock_take-Good turn _ _ s k k (λ s' h. h)
advance-Good turn (Place.test_owner o) s k =
    branch-Good turn _ s (Place.clear_owned o) Place.give_lock_released
      (λ e. (k, ground (arith, e), value-eq s.owner o (ground (arith, e)))) (λ e. k)
advance-Good turn (Place.clear_owned o) s (h, e, i) = record {
  knows = record { inited = h.inited; held = h.held };
  frames = λ other ne. Holds-Frame turn.task other s _ ne h refl;
  alternates = λ a.
      withdrawn o s.changes (subst (λ c. Alternates c s.changes) (current_owned s e ∙ ap some i) a);
}
advance-Good turn Place.give_lock_released s k = record {
  knows = tt;
  frames = λ other ne. Holds-Frame turn.task other s _ ne k refl;
  alternates = λ a. a;
}

-- What holds of the whole system: every task knows what it needs where it stands, and the
-- changes alternate.
record IsExclusive (s : System) : Type 0 where
  knows : (task : ℕ) → Knows s.shared task (s.place task)
  alternates : Alternates (current s.shared) s.shared.changes

moved-Knows :
    (turn : Turn) (s : System) (r : BtStack × Place) (task : ℕ)
    → Good turn s.shared r
    → Knows s.shared task (s.place task)
    → Knows r.0 task (if task == turn.task then r.1 else s.place task)
moved-Knows turn s r task g k = elim (Bool-cases (task == turn.task)) [
  | inl e ↦
      if_true (Knows r.0 task) (task == turn.task) _ _ e
        (subst (λ t. Knows r.0 t r.1) (ground (arith, e)) g.knows)
  | inr e ↦
      if_false (Knows r.0 task) (task == turn.task) _ _ e
        (Frame-Knows task s.shared r.0 (s.place task) (g.frames task (ground (arith, e))) k)
]

step-IsExclusive : (turn : Turn) (s : System) → IsExclusive s → IsExclusive (step turn s)
unfolding step
step-IsExclusive turn s x =
    let g = advance-Good turn (s.place turn.task) s.shared (x.knows turn.task) in
    record {
      knows = λ task. moved-Knows turn s _ task g (x.knows task);
      alternates = g.alternates x.alternates;
    }

steps-IsExclusive : (turns : List Turn) (s : System) → IsExclusive s → IsExclusive (steps turns s)
unfolding steps
steps-IsExclusive [] s x = x
steps-IsExclusive (turn ∷ turns) s x =
    steps-IsExclusive turns (step turn s) (step-IsExclusive turn s x)

boot-IsExclusive : IsExclusive boot
unfolding Knows current
boot-IsExclusive = record { knows = λ task. tt; alternates = free }

-- However the tasks' calls interleave from the boot on, the first ones included, which race to create the
-- lock, and whatever the lock's functions return: the controller is granted to one owner at a time, and
-- between two grants it was given back under the name of the first one's owner.
pub steps-Alternates :
    (turns : List Turn)
    → Alternates (current (steps turns boot).shared) (steps turns boot).shared.changes
steps-Alternates turns = (steps-IsExclusive turns boot boot-IsExclusive).alternates
