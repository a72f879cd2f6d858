-- ===== src/Obs/Plan.antt =====
-- internal/obs/manager.go: the commands of `Reconcile`, and which line of the listing gives the status of a container.
use eth_node_operator.Common.{
  String, ◌≡◌, refl, ap, ◌∙◌, Bool, true, Bool-cases, inl, inr, Option, none, some, List, [], ◌∷◌,
  ◌++◌, if◌then◌else◌, ◌==◌, recorded,
}
use eth_node_operator.Common.Plan.{Command}
use eth_node_operator.Common.Dict.{Dict, lookup, lookup-insert}
use eth_node_operator.Common.Text.{trim_space, split_n}
use mathlib.Core.List.{append_assoc}
use eth_node_operator.Obs.{Host, Manager, reconcile, compose, add_parts, add_line, add_lines}

-- The same host, over a world that also keeps the commands.
abbrev pub recording : {W : Type 0} → Host W → Host (W × List Command)
recording h = record {
  run = recorded h.run;
  is_missing = λ path (w, ran). h.is_missing path w;
  make_dir = λ path (w, ran). let (r, w') = h.make_dir path w in (r, (w', ran));
  create_file = λ path (w, ran). let (r, w') = h.create_file path w in (r, (w', ran));
}

module _ {W : Type 0} (h : Host W) (m : Manager) where
  abbrev pub pull_args : Command
  pull_args = m.stack_dir ∷ compose ("pull" ∷ "--quiet" ∷ [])

  abbrev pub up_args : Command
  up_args = m.stack_dir ∷ compose ("up" ∷ "-d" ∷ "--remove-orphans" ∷ "--quiet-pull" ∷ [])

  -- Whether the directory of the stack or the file of its environment is missing.
  abbrev pub is_absent : W → Bool
  is_absent w = if h.is_missing m.stack_dir w then true else h.is_missing m.env_file w

  -- The pass runs no command if the directory or the environment's file is missing, and otherwise the pull and then the start, whether
  -- the pull works or not.
  pub reconcile-commands :
      (w : W) (ran : List Command)
      → (reconcile (recording h) m (w, ran)).1.1
        ≡ (if is_absent w then ran else ran ++ pull_args ∷ up_args ∷ [])
  unfolding reconcile
  reconcile-commands w ran = elim (Bool-cases (h.is_missing m.stack_dir w)) [
    | inl gone ↦ rw gone refl
    | inr there ↦ rw there (elim (Bool-cases (h.is_missing m.env_file w)) [
      | inl gone ↦ rw gone refl
      | inr kept ↦ rw kept (append_assoc ran (pull_args ∷ []) (up_args ∷ []))
    ])
  ]

-- The status that a line gives a container.
abbrev pub given : String → List String → Option String
given name (first ∷ status ∷ []) = if first == name then some status else none
given name [] = none
given name (a ∷ []) = none
given name (a ∷ b ∷ c ∷ rest) = none

abbrev pub line_gives : String → String → Option String
line_gives name line =
    if trim_space line == "" then none else given name (split_n (trim_space line) b'\t' 2)

abbrev pub or_else : Option String → Option String → Option String
or_else none o = o
or_else (some s) o = some s

-- The last line that gives the container a status.
abbrev pub last_given : String → List String → Option String
last_given name [] = none
last_given name (line ∷ lines) = or_else (last_given name lines) (line_gives name line)

parts-lookup :
    (name : String) (parts : List String) (m : Dict String)
    → lookup name (add_parts parts m) ≡ or_else (given name parts) (lookup name m)
parts-lookup name [] m = refl
parts-lookup name (a ∷ []) m = refl
parts-lookup name (first ∷ status ∷ []) m =
    lookup-insert first name status m
    ∙ (elim (Bool-cases (first == name)) [ inl same ↦ rw same refl | inr other ↦ rw other refl ])
parts-lookup name (a ∷ b ∷ c ∷ rest) m = refl

line-lookup :
    (name line : String) (m : Dict String)
    → lookup name (add_line (trim_space line) m) ≡ or_else (line_gives name line) (lookup name m)
line-lookup name line m = elim (Bool-cases (trim_space line == "")) [
  | inl blank ↦ rw blank refl
  | inr full ↦ rw full (parts-lookup name (split_n (trim_space line) b'\t' 2) m)
]

or_else_assoc : (a b c : Option String) → or_else a (or_else b c) ≡ or_else (or_else a b) c
or_else_assoc none b c = refl
or_else_assoc (some s) b c = refl

lines-lookup :
    (name : String) (lines : List String) (m : Dict String)
    → lookup name (add_lines lines m) ≡ or_else (last_given name lines) (lookup name m)
unfolding add_lines
lines-lookup name [] m = refl
lines-lookup name (line ∷ lines) m =
    lines-lookup name lines (add_line (trim_space line) m)
    ∙ ap (or_else (last_given name lines)) (line-lookup name line m)
    ∙ or_else_assoc (last_given name lines) (line_gives name line) (lookup name m)

or_none : (o : Option String) → or_else o none ≡ o
or_none none = refl
or_none (some s) = refl

-- The map that `Status` makes of the lines of the listing has, for every name, the status of the last line that names it, after
-- the spaces around the line are dropped, and nothing if there is none.
pub add_lines-last_given :
    (name : String) (lines : List String) → lookup name (add_lines lines []) ≡ last_given name lines
unfolding lookup
add_lines-last_given name lines = lines-lookup name lines [] ∙ or_none (last_given name lines)
