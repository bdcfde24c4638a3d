-- ===== src/Hal/Lifecycle/Protocol.antt =====
-- The use of components/blusys/include/blusys/hal/internal/callback_lifecycle.h by several tasks. A
-- driver runs these helpers in critical sections, so that an interleaving is a sequence of whole
-- sections: a task enters a callback, or leaves it; a client replaces the callback, or starts to
-- close.
use blusys.Base.{
  ◌≢◌, ℕ, suc, ◌^◌, ◌<◌, ◌≡◌, refl, ◌∙◌, ap, sym, Bool, true, false, Option, some, List, [], ◌∷◌,
  ◌++◌, arith, length,
}
use blusys.Hal.Lifecycle.{try_enter, leave, is_active}

-- The fields that a driver's sections share, and the callbacks that are running now.
pub record Shared : Type 0 where
  pub callback : Option ℕ
  pub callback_active : ℕ
  pub closing : Bool
  pub running : List ℕ

-- The sections of the tasks that run callbacks. There are fewer than 2 ^ 32 tasks.
pub data Call : Shared → Shared → Type 0 where
  enters :
      (s : Shared) (cb n : ℕ)
      → s.callback ≡ some cb
      → try_enter s.callback_active s.closing ≡ some n
      → suc (length s.running) < 2 ^ 32
      → Call s (record s { callback_active = n; running = cb ∷ s.running })
  leaves :
      (s : Shared) (before : List ℕ) (cb : ℕ) (after : List ℕ)
      → s.running ≡ before ++ cb ∷ after
      → Call s (record s { callback_active = leave s.callback_active; running = before ++ after })

-- With the sections of a client.
pub data Section : Shared → Shared → Type 0 where
  calls : (s s' : Shared) → Call s s' → Section s s'
  replaces :
      (s : Shared) (callback : Option ℕ)
      → s.closing ≡ false
      → Section s (record s { callback = callback })
  closes : (s : Shared) → Section s (record s { closing = true })

pub data Sections : Shared → Shared → Type 0 where
  stay : (s : Shared) → Sections s s
  then_section : (s s' s'' : Shared) → Section s s' → Sections s' s'' → Sections s s''

-- The counter counts the callbacks that are running.
pub record Counts (s : Shared) : Type 0 where
  pub active : s.callback_active ≡ length s.running
  pub few : length s.running < 2 ^ 32

length-remove :
    (before : List ℕ) (cb : ℕ) (after : List ℕ)
    → length (before ++ cb ∷ after) ≡ suc (length (before ++ after))
length-remove [] cb after = refl
length-remove (x ∷ before) cb after = ap suc (length-remove before cb after)

not_nil : (before : List ℕ) (cb : ℕ) (after : List ℕ) → before ++ cb ∷ after ≢ []
not_nil [] cb after h = ground (arith, h)
not_nil (x ∷ before) cb after h = ground (arith, h)

empty_list : (xs : List ℕ) → length xs ≡ 0 → xs ≡ []
empty_list [] h = refl
empty_list (x ∷ xs) h = absurd (omega arith)

Call-Counts : {s s' : Shared} → Call s s' → Counts s → Counts s'
unfolding try_enter leave
Call-Counts (enters s cb n h k few) c = record {
  active = ground (arith, k, c.active, few);
  few = few;
}
Call-Counts (leaves s before cb after h) c = record {
  active = ground (arith, c.active, ap length h, length-remove before cb after);
  few = omega (arith, c.few, ap length h, length-remove before cb after);
}

Section-Counts : {s s' : Shared} → Section s s' → Counts s → Counts s'
Section-Counts (calls s s' step) c = Call-Counts step c
Section-Counts (replaces s callback h) c = record { active = c.active; few = c.few }
Section-Counts (closes s) c = record { active = c.active; few = c.few }

-- A closing handle on which nothing runs.
pub record Quiet (s : Shared) : Type 0 where
  pub is_closing : s.closing ≡ true
  pub none_running : s.running ≡ []

Section-Quiet : {s s' : Shared} → Section s s' → Quiet s → Quiet s'
unfolding try_enter
Section-Quiet (calls _ _ (enters s cb n h k few)) q = absurd (ground (arith, k, q.is_closing))
Section-Quiet (calls _ _ (leaves s before cb after h)) q =
    absurd (ground (arith, not_nil before cb after (sym h ∙ q.none_running)))
Section-Quiet (replaces s callback h) q = absurd (ground (arith, h, q.is_closing))
Section-Quiet (closes s) q = record { is_closing = refl; none_running = q.none_running }

Sections-Quiet : {s s' : Shared} → Sections s s' → Quiet s → Quiet s'
Sections-Quiet (stay s) q = q
Sections-Quiet (then_section s s' s'' step rest) q = Sections-Quiet rest (Section-Quiet step q)

idle-Nil : (s : Shared) → Counts s → is_active s.callback_active ≡ false → s.running ≡ []
unfolding is_active
idle-Nil s c h = empty_list (s.running) (ground (arith, h, c.active))

-- Once a handle is closing and the wait for its callbacks has seen none active, no callback runs then or
-- after any later sections, so that the handle can be freed.
pub drained-Quiet :
    (s s' : Shared)
    → Counts s
    → s.closing ≡ true
    → is_active s.callback_active ≡ false
    → Sections s s'
    → Quiet s'
drained-Quiet s s' c closing idle later =
    Sections-Quiet later (record { is_closing = closing; none_running = idle-Nil s c idle })

-- The counter counts the running callbacks after any sections, if it did before.
pub Sections-Counts : (s s' : Shared) → Sections s s' → Counts s → Counts s'
Sections-Counts _ _ (stay s) c = c
Sections-Counts _ _ (then_section s s' s'' step rest) c =
    Sections-Counts s' s'' rest (Section-Counts step c)
