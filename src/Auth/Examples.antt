-- ===== src/Auth/Examples.antt =====
-- Tests of the list of allowed callers, and its theorems at concrete lists
-- (src/lastore-daemon/manager_auth.go).
use lastore_daemon.Base.{
  ℕ, Bool, true, false, not, ◌&&◌, ◌||◌, List, [], ◌∷◌, none, some, String, str_eq, ◌==◌,
  if◌then◌else◌, any, keep, ◌≡◌, refl,
}
use lastore_daemon.System.{Error}
use lastore_daemon.Auth.{
  Strv, IsStrv, Auth, Bus, Disk, Write, is_valid, check_invoke_permission, add_allow_caller,
  load_allow_caller, read_allow_caller_state,
}
use lastore_daemon.Auth.Callers.{is_none, any-keep, add_allow_caller-contains}
use lastore_daemon.Auth.History.{
  Event, new_auth, serve, serve_all, registers, check_invoke_permission-registers,
}
use lastore_daemon.Auth.Kept.{load_allow_caller-add}

same_lists : List String → List String → Bool
same_lists [] [] = true
same_lists (x ∷ l) (y ∷ r) = str_eq x y && same_lists l r
same_lists _ _ = false

abbrev strv : Strv
strv = record {
  contains = λ l x. any (str_eq x) l;
  add = λ l x. (x ∷ l, true);
  delete = λ l x. (keep (λ y. not (str_eq y x)) l, any (str_eq x) l);
  filter_empty = λ l. keep (λ y. not (str_eq y "")) l;
  uniq = λ l. l;
  equal = same_lists;
}

laws : IsStrv strv
laws = record {
  contains_any = λ l x. refl;
  contains-add = λ l x y. refl;
  contains-delete = λ l x y. any-keep (λ z. not (str_eq z x)) y l;
  delete_found = λ l x. refl;
  contains-filter_empty = λ l x. any-keep (λ z. not (str_eq z "")) x l;
  contains-uniq = λ l x. refl;
}

abbrev bus : Bus
bus = record { id = some "b1"; owner = λ name. if str_eq name ":1.5" then some ":1.5" else none }

abbrev disk : Disk
disk = record { remove_error = none; mkdir_error = none; write = Write.written }

abbrev empty : Auth
empty = new_auth none

abbrev one : Auth
one = record {
  callers = ":1.5" ∷ [];
  file = some (record { bus_id = "b1"; callers = ":1.5" ∷ [] });
}

adds : add_allow_caller strv bus disk ":1.5" empty ≡ (one, none)
unfolding add_allow_caller
adds = refl

add_allow_caller-contains_example :
    (any (str_eq ":1.5") one.callers ≡ (
      if is_none {A = Error} none
      then str_eq ":1.5" ":1.5" || any (str_eq ":1.5") empty.callers
      else any (str_eq ":1.5") empty.callers))
    × ((is_none {A = Error} none && not (is_valid strv bus ":1.5")) ≡ false)
unfolding add_allow_caller
add_allow_caller-contains_example = add_allow_caller-contains strv laws bus disk ":1.5" ":1.5" empty

abbrev registered : List Event
registered = Event.allowed bus disk ":1.5" ∷ []

passes :
    check_invoke_permission strv []
      (some 1000)
      false
      ":1.5"
      (serve_all strv registered (new_auth none))
    ≡ true
unfolding check_invoke_permission serve_all serve add_allow_caller
passes = refl

check_invoke_permission-registers_example :
    (u : ℕ) × (some 1000 ≡ some u)
    × (((u == 0) || any (λ v. v == u) [] || any (registers strv ":1.5") registered) ≡ true)
check_invoke_permission-registers_example =
    check_invoke_permission-registers strv laws registered [] (some 1000) ":1.5" none passes

load_allow_caller-add_example :
    any
      (str_eq ":1.5")
      (load_allow_caller strv bus disk
        (some (read_allow_caller_state strv one.file))
        (new_auth one.file)).callers
    ≡ (is_valid strv bus ":1.5" && any (str_eq ":1.5") one.callers)
load_allow_caller-add_example =
    load_allow_caller-add strv laws bus bus disk disk ":1.5" ":1.5" empty one adds refl
