-- ===== src/Logging/Loggers/Routed.antt =====
-- The handlers that loggers have after the set-up, whatever other code adds.
use opendatahub_tests.Shared.{
  ℕ, String, ◌≡◌, refl, true, false, Bool, ◌&&◌, Option, none, some, List, [], ◌∷◌, ◌==◌, all,
  lookup, put, nat_eq, arith, Bool-cases, inl, inr, and_parts, Option-cases,
}
use opendatahub_tests.Logging.Loggers.{
  Handler, queue_handler, foreign, Logger, Loggers, same_handler, is_queue_handler,
  original_add_handler, patched, new_logger, redirect, redirect_all, get_logger, basic_logger,
  setup_logging, add_at, add_placeholders, Step, made, added, added_root, Later, at_once, then_step,
}

-- The handler of the queue and no other; and that, or no handler at all.
pub only_queue : ℕ → List Handler → Bool
only_queue q (queue_handler n ∷ []) = nat_eq n q
only_queue q _ = false

pub at_most_queue : ℕ → List Handler → Bool
at_most_queue q [] = true
at_most_queue q (h ∷ hs) = only_queue q (h ∷ hs)

entry_ok : ℕ → String × Option Logger → Bool
entry_ok q (name, none) = true
entry_ok q (name, some l) = at_most_queue q l.handlers

pub queue_dict : ℕ → List (String × Option Logger) → Bool
queue_dict q dict = all (entry_ok q) dict

patched-only :
    (q n : ℕ) (hs : List Handler) (l : Logger)
    → l.handlers ≡ hs
    → at_most_queue q hs ≡ true
    → only_queue q (patched q (foreign n) l).handlers ≡ true
unfolding at_most_queue only_queue patched original_add_handler is_queue_handler same_handler
patched-only q n [] l e h = rw e (ground arith)
patched-only q n (queue_handler m ∷ []) l e h = rw e h
patched-only q n (queue_handler m ∷ a ∷ hs) l e h = ground (arith, h)
patched-only q n (foreign m ∷ hs) l e h = ground (arith, h)

redirect-only : (q : ℕ) (l : Logger) → only_queue q (redirect q l).handlers ≡ true
unfolding only_queue redirect original_add_handler same_handler
redirect-only q l = ground arith

only-at_most : (q : ℕ) (hs : List Handler) → only_queue q hs ≡ true → at_most_queue q hs ≡ true
unfolding at_most_queue
only-at_most q [] h = refl
only-at_most q (x ∷ hs) h = h

new_logger-at_most : (q : ℕ) → at_most_queue q new_logger.handlers ≡ true
unfolding at_most_queue new_logger
new_logger-at_most q = refl

queue_dict-redirect_all :
    (q : ℕ) (dict : List (String × Option Logger)) → queue_dict q (redirect_all q dict) ≡ true
unfolding queue_dict redirect_all entry_ok
queue_dict-redirect_all q [] = refl
queue_dict-redirect_all q ((name, none) ∷ dict) = queue_dict-redirect_all q dict
queue_dict-redirect_all q ((name, some l) ∷ dict) = ground (
  arith,
  only-at_most q (redirect q l).handlers (redirect-only q l),
  queue_dict-redirect_all q dict,
)

queue_dict-put :
    (q : ℕ) (name : String) (l : Logger) (dict : List (String × Option Logger))
    → at_most_queue q l.handlers ≡ true
    → queue_dict q dict ≡ true
    → queue_dict q (put name (some l) dict) ≡ true
unfolding queue_dict entry_ok
queue_dict-put q name l [] ok h = ground (arith, ok)
queue_dict-put q name l ((j, none) ∷ dict) ok h =
    ground (arith, ok, queue_dict-put q name l dict ok)
queue_dict-put q name l ((j, some k) ∷ dict) ok h =
    ground (arith, ok, queue_dict-put q name l dict ok)

queue_dict-placeholder :
    (q : ℕ) (name : String) (dict : List (String × Option Logger))
    → queue_dict q dict ≡ true
    → queue_dict q (put name none dict) ≡ true
unfolding queue_dict entry_ok
queue_dict-placeholder q name [] h = refl
queue_dict-placeholder q name ((j, none) ∷ dict) h =
    ground (arith, queue_dict-placeholder q name dict)
queue_dict-placeholder q name ((j, some k) ∷ dict) h =
    ground (arith, queue_dict-placeholder q name dict)

queue_dict-add_placeholders :
    (q : ℕ) (names : List String) (dict : List (String × Option Logger))
    → queue_dict q dict ≡ true
    → queue_dict q (add_placeholders names dict) ≡ true
unfolding add_placeholders
queue_dict-add_placeholders q [] dict h = h
queue_dict-add_placeholders q (name ∷ names) dict h = elim (Option-cases (lookup name dict)) [
  | inl e ↦
      rw (e, add_placeholders)
        (queue_dict-add_placeholders q names (put name none dict)
          (queue_dict-placeholder q name dict h))
  | inr (known, e) ↦ rw (e, add_placeholders) (queue_dict-add_placeholders q names dict h)
]

queue_dict-add_at :
    (q : ℕ) (name : String) (n : ℕ) (dict : List (String × Option Logger))
    → queue_dict q dict ≡ true
    → queue_dict q (add_at q name (foreign n) dict) ≡ true
unfolding queue_dict entry_ok add_at
queue_dict-add_at q name n [] h = refl
queue_dict-add_at q name n ((j, none) ∷ dict) h = queue_dict-add_at q name n dict h
queue_dict-add_at q name n ((j, some l) ∷ dict) h =
    let (here, there) = and_parts (at_most_queue q l.handlers) (queue_dict q dict) h in
    ground (
      arith,
      here,
      queue_dict-add_at q name n dict there,
      only-at_most q (patched q (foreign n) l).handlers (patched-only q n l.handlers l refl here),
    )

-- What holds from the set-up on.
routed : ℕ → Loggers → Bool
routed q s = only_queue q s.root.handlers && queue_dict q s.logger_dict

routed-setup_logging :
    (log_level q : ℕ) (s : Loggers) → routed q (setup_logging log_level q s) ≡ true
unfolding routed setup_logging basic_logger only_queue original_add_handler same_handler
routed-setup_logging log_level q s =
    let dict = redirect_all q s.logger_dict in
    let basic = redirect q (record (get_logger "basic" dict) { level = log_level }) in
    let in_dict : queue_dict q (put "basic" (some basic) dict) ≡ true =
      queue_dict-put q "basic" basic dict
        (only-at_most q basic.handlers
          (redirect-only q (record (get_logger "basic" dict) { level = log_level })))
        (queue_dict-redirect_all q s.logger_dict) in
    ground (arith, in_dict)

routed-step : (q : ℕ) (s t : Loggers) → Step q s t → routed q s ≡ true → routed q t ≡ true
unfolding routed
routed-step q s t (made _ _ name above fresh e) h =
    let (root, dict) = and_parts (only_queue q s.root.handlers) (queue_dict q s.logger_dict) h in
    rw e (
      ground (
        arith,
        root,
        queue_dict-add_placeholders q above (put name (some new_logger) s.logger_dict)
            (queue_dict-put q name new_logger s.logger_dict (new_logger-at_most q) dict),
      ))
routed-step q s t (added _ _ name n e) h =
    let (root, dict) = and_parts (only_queue q s.root.handlers) (queue_dict q s.logger_dict) h in
    rw e (ground (arith, root, queue_dict-add_at q name n s.logger_dict dict))
routed-step q s t (added_root _ _ n e) h =
    let (root, dict) = and_parts (only_queue q s.root.handlers) (queue_dict q s.logger_dict) h in
    rw e (
      ground (
        arith,
        dict,
        patched-only q n s.root.handlers s.root refl (only-at_most q s.root.handlers root),
      ))

routed-Later : (q : ℕ) (s t : Loggers) → Later q s t → routed q s ≡ true → routed q t ≡ true
routed-Later q s t at_once h = h
routed-Later q s t (then_step u _ later step) h =
    routed-step q u t step (routed-Later q s u later h)

at_most_queue-lookup :
    (q : ℕ) (name : String) (l : Logger) (dict : List (String × Option Logger))
    → queue_dict q dict ≡ true
    → lookup name dict ≡ some (some l)
    → at_most_queue q l.handlers ≡ true
unfolding queue_dict entry_ok
at_most_queue-lookup q name l [] h found = ground arith
at_most_queue-lookup q name l ((j, none) ∷ dict) h found = elim (Bool-cases (j == name)) [
  | inl e ↦ ground (arith, e, found)
  | inr e ↦ at_most_queue-lookup q name l dict h (ground (arith, e, found))
]
at_most_queue-lookup q name l ((j, some k) ∷ dict) h found =
    let (here, there) = and_parts (at_most_queue q k.handlers) (queue_dict q dict) h in
    elim (Bool-cases (j == name)) [
      | inl e ↦ ground (arith, e, found, here)
      | inr e ↦ at_most_queue-lookup q name l dict there (ground (arith, e, found))
    ]

-- Whatever loggers are got after the set-up, in the place of placeholders too, and whatever handlers
-- that are no queue handlers other code adds, the root logger has the handler of the queue and no
-- other, and any other logger has that handler only, or none.
pub setup_logging-Later :
    (log_level q : ℕ) (s t : Loggers)
    → Later q (setup_logging log_level q s) t
    → (only_queue q t.root.handlers ≡ true)
      × ((name : String) (l : Logger)
          → lookup name t.logger_dict ≡ some (some l)
          → at_most_queue q l.handlers ≡ true)
unfolding routed
setup_logging-Later log_level q s t later =
    let (root, dict) =
      and_parts (only_queue q t.root.handlers) (queue_dict q t.logger_dict) (
        routed-Later q (setup_logging log_level q s) t later
          (routed-setup_logging log_level q s)) in
    (root, λ name l. at_most_queue-lookup q name l t.logger_dict dict)
