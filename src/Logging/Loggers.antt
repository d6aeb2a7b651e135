-- ===== src/Logging/Loggers.antt =====
-- `setup_logging` and `_patch_add_handler` of utilities/logger.py on the handlers of the loggers.
-- A queue handler is told by the number of its queue.
pub mod Routed
use opendatahub_tests.Shared.{
  ℕ, ◌+◌, String, Bool, true, false, ◌||◌, Option, none, some, List, [], ◌∷◌, ◌++◌, ◌≡◌, nat_eq,
  if◌then◌else◌, any, map, lookup, put, ◌==◌,
}

pub data Handler : Type 0 where
  queue_handler foreign : ℕ → Handler

pub record Logger : Type 0 where
  pub level : ℕ
  pub handlers : List Handler
  pub propagate : Bool

-- The root logger, and the manager's dictionary, in which `none` is a placeholder. `duplicates` is
-- the number of duplicate filters on the root logger.
pub record Loggers : Type 0 where
  pub root : Logger
  pub duplicates : ℕ
  pub logger_dict : List (String × Option Logger)

same_handler : Handler → Handler → Bool
same_handler (queue_handler a) (queue_handler b) = nat_eq a b
same_handler (foreign a) (foreign b) = nat_eq a b
same_handler _ _ = false

unfoldable pub is_queue_handler : Handler → Bool
is_queue_handler (queue_handler q) = true
is_queue_handler (foreign n) = false

-- The standard library's `addHandler`: a handler that is there is not added again.
unfoldable pub original_add_handler : Handler → Logger → Logger
unfolding same_handler
original_add_handler hdlr l =
    if any (same_handler hdlr) l.handlers
    then l
    else record l { handlers = l.handlers ++ (hdlr ∷ []) }

-- `_patched`, for the queue of the last set-up.
unfoldable pub patched : ℕ → Handler → Logger → Logger
unfolding original_add_handler same_handler is_queue_handler
patched q hdlr l =
    if is_queue_handler hdlr
    then original_add_handler hdlr l
    else if any is_queue_handler l.handlers
    then l
    else original_add_handler (queue_handler q) l

-- A logger that `getLogger` makes.
unfoldable pub new_logger : Logger
new_logger = record { level = 0; handlers = []; propagate = true }

redirect : ℕ → Logger → Logger
unfolding original_add_handler same_handler
redirect q l = record (original_add_handler (queue_handler q) (record l { handlers = [] })) {
  propagate = false;
}

redirect_all : ℕ → List (String × Option Logger) → List (String × Option Logger)
redirect_all q [] = []
redirect_all q ((name, none) ∷ rest) = (name, none) ∷ redirect_all q rest
redirect_all q ((name, some l) ∷ rest) = (name, some (redirect q l)) ∷ redirect_all q rest

-- `logging.getLogger(name)` for another name than the root's.
get_logger : String → List (String × Option Logger) → Logger
unfolding new_logger
get_logger name dict = elim (lookup name dict) [
  | none ↦ new_logger
  | some none ↦ new_logger
  | some (some l) ↦ l
]

basic_logger : ℕ → ℕ → List (String × Option Logger) → Logger
unfolding redirect get_logger
basic_logger log_level q dict = redirect q (record (get_logger "basic" dict) { level = log_level })

pub data LogLevel : Type 0 where
  number : ℕ → LogLevel
  named : String → LogLevel

-- `attribute` is the number that the logging module has under the name in capitals.
unfoldable pub level_number : (String → Option ℕ) → LogLevel → ℕ
level_number attribute (number n) = n
level_number attribute (named name) = elim (attribute name) [ none ↦ 20 | some n ↦ n ]

pub data Output : Type 0 where
  log_file console : Output

unfoldable pub listener_outputs : Bool → List Output
listener_outputs enable_console = log_file ∷ (if enable_console then console ∷ [] else [])

-- The loggers after the set-up with the new queue `q`.
unfoldable pub setup_logging : ℕ → ℕ → Loggers → Loggers
unfolding redirect redirect_all basic_logger get_logger original_add_handler same_handler new_logger
setup_logging log_level q s =
    let dict = redirect_all q s.logger_dict in
    record {
      root =
          original_add_handler (queue_handler q)
            (record s.root { level = log_level; handlers = [] });
      duplicates = s.duplicates + 1;
      logger_dict = put "basic" (some (basic_logger log_level q dict)) dict;
    }

unfoldable pub add_at :
    ℕ → String → Handler → List (String × Option Logger) → List (String × Option Logger)
unfolding patched original_add_handler same_handler is_queue_handler
add_at q name hdlr [] = []
add_at q name hdlr ((j, none) ∷ rest) = (j, none) ∷ add_at q name hdlr rest
add_at q name hdlr ((j, some l) ∷ rest) =
    (j, some (if j == name then patched q hdlr l else l)) ∷ add_at q name hdlr rest

-- Whether the dictionary has a logger of the name, and not a placeholder.
abbrev pub is_made : Option (Option Logger) → Bool
is_made (some (some l)) = true
is_made _ = false

-- The standard library's `getLogger` puts a placeholder for each dotted name above a new logger's that
-- is not known yet.
unfoldable pub add_placeholders :
    List String → List (String × Option Logger) → List (String × Option Logger)
add_placeholders [] dict = dict
add_placeholders (name ∷ names) dict =
    add_placeholders names
      (elim (lookup name dict) [ none ↦ put name none dict | some known ↦ dict ])

-- What other code does to the loggers after the set-up: it gets a logger that is not known or only a
-- placeholder, with the names above it, or adds a handler of its own to a logger or to the root logger.
pub data Step (q : ℕ) : Loggers → Loggers → Type 0 where
  made :
      (s t : Loggers) (name : String) (above : List String)
      → is_made (lookup name s.logger_dict) ≡ false
      → t ≡ record s {
        logger_dict = add_placeholders above (put name (some new_logger) s.logger_dict);
      }
      → Step q s t
  added :
      (s t : Loggers) (name : String) (n : ℕ)
      → t ≡ record s { logger_dict = add_at q name (foreign n) s.logger_dict }
      → Step q s t
  added_root :
      (s t : Loggers) (n : ℕ) → t ≡ record s { root = patched q (foreign n) s.root } → Step q s t

-- What is reached from a state by such steps.
pub data Later (q : ℕ) (s : Loggers) : Loggers → Type 0 where
  at_once : Later q s s
  then_step : (t u : Loggers) → Later q s t → Step q t u → Later q s u
