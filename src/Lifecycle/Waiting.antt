-- ===== src/Lifecycle/Waiting.antt =====
-- `WaitFor` of lifecycle/lifecycle.go tests the state and then subscribes, in two steps.
use cliffhanger.Prelude.{
  ℕ, ◌+◌, String, ◌≡◌, refl, sym, ap, ◌∙◌, ◌≢◌, inl, inr, true, none, some, [], ◌∷◌, arith, eq_refl,
  Option-cases, nat_eq, string_eq, set,
}
use cliffhanger.Prelude.Int.{int_eq}
use cliffhanger.Prelude.Dict.{Dict, lookup, insert}
use mathlib.Core.Path.{subst}
use cliffhanger.Lifecycle.{
  Lifecycle, Field, field_type, get_field, set_field, state_of, subscribe_sized, wait_for,
  wait_loop, health, config, auth, conn, make_channel, update,
}
use cliffhanger.Lifecycle.Bus.{deliver, on_bus}
use cliffhanger.Lifecycle.Sound.{IsSound, subscribe_sized-IsSound}
use cliffhanger.Lifecycle.Delivery.{differs, event_of, set_field-IsChange, set_field-same}

state_of-field : (f : Field) (l : Lifecycle) → state_of (field_type f) l ≡ get_field f l
unfolding state_of
state_of-field health l = refl
state_of-field config l = refl
state_of-field auth l = refl
state_of-field conn l = refl

-- Subscribing changes none of the states.
get_field-subscribe_sized :
    (f : Field) (id : String) (size : ℕ) (l : Lifecycle)
    → get_field f (subscribe_sized id size l).0 ≡ get_field f l
unfolding subscribe_sized
get_field-subscribe_sized f id size l = elim (Option-cases (lookup id l.system_event_bus)) [
  | inr (i, e) ↦ rw (e, subscribe_sized)
  | inl e ↦ rw (e, subscribe_sized) (each f)
]
  where
    each :
        (g : Field)
        → get_field g (record l {
          system_event_bus = insert id l.next_channel l.system_event_bus;
          channels = update l.channels l.next_channel (make_channel size);
          next_channel = l.next_channel + 1;
        })
          ≡ get_field g l
    each health = refl
    each config = refl
    each auth = refl
    each conn = refl

-- A new subscriber has a channel of its own, with nothing in it.
subscribe_sized_fresh :
    (id : String) (size : ℕ) (l : Lifecycle)
    → lookup id l.system_event_bus ≡ none
    → ((subscribe_sized id size l).1 ≡ l.next_channel)
      × ((subscribe_sized id size l).0.channels l.next_channel ≡ make_channel size)
unfolding subscribe_sized
subscribe_sized_fresh id size l e = rw (e, subscribe_sized) (refl, here l.next_channel)
  where
    here : (n : ℕ) → update l.channels n (make_channel size) n ≡ make_channel size
    here n = ground arith

on_bus-insert : (id : String) (n : ℕ) (bus : Dict ℕ) → on_bus n (insert id n bus) ≡ true
unfolding on_bus insert
on_bus-insert id n [] = ground arith
on_bus-insert id n ((k, i) ∷ rest) = ground (arith, on_bus-insert id n rest)

on_bus-subscribe_sized :
    (id : String) (size : ℕ) (l : Lifecycle)
    → lookup id l.system_event_bus ≡ none
    → on_bus l.next_channel (subscribe_sized id size l).0.system_event_bus ≡ true
unfolding subscribe_sized
on_bus-subscribe_sized id size l e =
    rw (e, subscribe_sized) (on_bus-insert id l.next_channel l.system_event_bus)

-- The wake-up that is lost: another caller sets the awaited state after `WaitFor` has tested it and
-- before it has subscribed, under a name that is not on the bus. Then `WaitFor` does not return, although the state is the awaited one, its
-- channel is empty, and setting the state once more sends nothing to it.
pub wait_for_lost :
    (id : String) (f : Field) (target : String) (params : Dict String) (l m : Lifecycle)
    → target ≢ get_field f l
    → lookup id m.system_event_bus ≡ none
    → get_field f m ≡ target
    → let (w, waiting) = wait_for id (field_type f) target l m in
      (waiting ≡ some m.next_channel)
      × ((w.channels m.next_channel).buffer ≡ [])
      × (get_field f w ≡ target)
      × (set_field f target params w ≡ some w)
wait_for_lost id f target params l m n fresh set =
    let w = (subscribe_sized id 5 m).0 in
    let kept : get_field f w ≡ target = get_field-subscribe_sized f id 5 m ∙ set in
    rw blocked (
      ap some (subscribe_sized_fresh id 5 m fresh).0,
      rw (subscribe_sized_fresh id 5 m fresh).1 refl,
      kept,
      subst (λ t. set_field f t params w ≡ some w) kept (set_field-same f params w),
    )
  where
    other : get_field f l ≢ target
    other e = n (sym e)

    blocked :
        wait_for id (field_type f) target l m
        ≡ ((subscribe_sized id 5 m).0, some (subscribe_sized id 5 m).1)
    blocked = unfold wait_for in rw (state_of-field f l, differs (get_field f l) target other)

-- Where the state is set after the subscription instead, in a sound lifecycle and for a new subscriber,
-- the first event on the channel of `WaitFor` ends its loop, and it returns.
pub wait_for_seen :
    (id : String) (f : Field) (target : String) (params : Dict String) (l : Lifecycle)
    → IsSound l
    → lookup id l.system_event_bus ≡ none
    → target ≢ get_field f l
    → let (w, _) = wait_for id (field_type f) target l l in
      (m : Lifecycle) × (set_field f target params w ≡ some m)
      × (wait_loop (field_type f) target (m.channels l.next_channel).buffer ≡ true)
wait_for_seen id f target params l h fresh n =
    let w = (subscribe_sized id 5 l).0 in
    let differs_then : target ≢ get_field f w = λ e. n (e ∙ get_field-subscribe_sized f id 5 l) in
    let (m, e, change) =
      set_field-IsChange f target params w (subscribe_sized-IsSound id 5 l h) differs_then in
    rw blocked (
      m,
      e,
      rw
          (
            change.offered l.next_channel,
            on_bus-subscribe_sized id 5 l fresh,
            (subscribe_sized_fresh id 5 l fresh).1,
          )
          woken,
    )
  where
    other : get_field f l ≢ target
    other e = n (sym e)

    blocked :
        wait_for id (field_type f) target l l
        ≡ ((subscribe_sized id 5 l).0, some (subscribe_sized id 5 l).1)
    blocked = unfold wait_for in rw (state_of-field f l, differs (get_field f l) target other)

    woken :
        wait_loop (field_type f) target (deliver (event_of f target params) (make_channel 5)).buffer
        ≡ true
    woken = unfold wait_loop deliver in rw (eq_refl (field_type f), eq_refl target)
