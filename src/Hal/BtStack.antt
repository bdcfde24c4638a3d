-- ===== src/Hal/BtStack.antt =====
-- components/blusys/src/hal/internal/bt_stack.c: the lock on the Bluetooth controller, which has
-- one owner at a time. Its calls run in several tasks, and a task may be stopped before any
-- statement that reads or writes what they share.
pub mod Exclusive
mod Tests
use blusys.Base.{ℕ, Bool, true, false, ◌&&◌, Option, none, some, List, [], ◌∷◌, ◌==◌, if◌then◌else◌}
use blusys.Hal.Error.{BlusysErr, ok, err_busy}

-- `blusys_bt_stack_owner_t`.
pub data BtStackOwner : Type 0 where
  bluetooth : BtStackOwner
  ble_gatt : BtStackOwner
  usb_hid_ble : BtStackOwner
  wifi_prov_ble : BtStackOwner
  ble_hid_device : BtStackOwner

-- The values of the C enumeration.
unfoldable pub owner_value : BtStackOwner → ℕ
owner_value bluetooth = 0
owner_value ble_gatt = 1
owner_value usb_hid_ble = 2
owner_value wifi_prov_ble = 3
owner_value ble_hid_device = 4

-- A call that gave the controller to an owner, or took it back.
pub data Change : Type 0 where
  grant : BtStackOwner → Change
  withdraw : BtStackOwner → Change

-- The static variables. `holder` is the task that holds the mutex of `s_bt_stack_lock`, and
-- `changes` are those of `s_bt_stack_owned`, the last one first.
pub record BtStack : Type 0 where
  pub lock_inited : Bool
  pub holder : Option ℕ
  pub owner : BtStackOwner
  pub owned : Bool
  pub changes : List Change

-- Where a task is: before which statement of which call, with the call's argument.
pub data Place : Type 0 where
  outside : Place
  -- blusys_bt_stack_acquire
  test_inited : BtStackOwner → Place
  init_lock : BtStackOwner → Place
  publish_lock : BtStackOwner → Place
  take_stack_lock : BtStackOwner → Place
  test_owned : BtStackOwner → Place
  set_owner : BtStackOwner → Place
  set_owned : BtStackOwner → Place
  give_stack_lock : BlusysErr → Place
  -- blusys_bt_stack_release
  test_inited_to_release : BtStackOwner → Place
  take_lock_to_release : BtStackOwner → Place
  test_owner : BtStackOwner → Place
  clear_owned : BtStackOwner → Place
  give_lock_released : Place

pub data BtCall : Type 0 where
  acquire : BtStackOwner → BtCall
  release : BtStackOwner → BtCall

-- The scheduler's choice: the task that goes on, the call that it starts if it runs none, and the
-- result of the lock's function if it calls one.
pub record Turn : Type 0 where
  pub task : ℕ
  pub call : BtCall
  pub lock_err : BlusysErr

unfoldable pub start : BtCall → Place
start (acquire owner) = test_inited owner
start (release owner) = test_inited_to_release owner

-- `blusys_lock_take` without a timeout: the task waits while another one holds the mutex.
unfoldable pub lock_take : Turn → Place → Place → BtStack → BtStack × Place
lock_take turn waiting taken s =
    if turn.lock_err == ok
    then elim s.holder [
      | none ↦ (record s { holder = some turn.task }, taken)
      | some task ↦ (s, waiting)
    ]
    else (s, outside)

-- The statement before which the task stands. `publish_lock` is the critical section of
-- `ensure_bt_stack_lock`, which no task interrupts; no task holds the mutex that it publishes.
unfoldable pub advance : Turn → Place → BtStack → BtStack × Place
advance turn outside s = (s, start turn.call)
advance turn (test_inited o) s = (s, if s.lock_inited then take_stack_lock o else init_lock o)
advance turn (init_lock o) s = (s, if turn.lock_err == ok then publish_lock o else outside)
advance turn (publish_lock o) s =
    (if s.lock_inited then s else record s { lock_inited = true; holder = none }, take_stack_lock o)
advance turn (take_stack_lock o) s = lock_take turn (take_stack_lock o) (test_owned o) s
advance turn (test_owned o) s = (s, if s.owned then give_stack_lock err_busy else set_owner o)
advance turn (set_owner o) s = (record s { owner = o }, set_owned o)
advance turn (set_owned o) s =
    (record s { owned = true; changes = grant o ∷ s.changes }, give_stack_lock ok)
advance turn (give_stack_lock result) s = (record s { holder = none }, outside)
advance turn (test_inited_to_release o) s =
    (s, if s.lock_inited then take_lock_to_release o else outside)
advance turn (take_lock_to_release o) s = lock_take turn (take_lock_to_release o) (test_owner o) s
advance turn (test_owner o) s = (
  s,
  if s.owned && (owner_value s.owner == owner_value o) then clear_owned o else give_lock_released,
)
advance turn (clear_owned o) s =
    (record s { owned = false; changes = withdraw o ∷ s.changes }, give_lock_released)
advance turn give_lock_released s = (record s { holder = none }, outside)

-- The tasks with what they share.
pub record System : Type 0 where
  pub shared : BtStack
  pub place : ℕ → Place

unfoldable pub step : Turn → System → System
step turn s =
    let (shared, next) = advance turn (s.place turn.task) s.shared in
    record { shared = shared; place = λ task. if task == turn.task then next else s.place task }

unfoldable pub steps : List Turn → System → System
steps [] s = s
steps (turn ∷ turns) s = steps turns (step turn s)

-- The variables before the first call.
abbrev pub boot : System
boot = record {
  shared = record {
    lock_inited = false;
    holder = none;
    owner = bluetooth;
    owned = false;
    changes = [];
  };
  place = λ task. outside;
}
