-- ===== src/Runtime/Start/Setup.antt =====
-- The set-up of one compartment: its stack, and the keys of the stacks that were there before.
use ia2_phase.Runtime.Pages.{Protect, page_down}
use ia2_phase.Runtime.Tls.{read_write}
use ia2_phase.Runtime.Start.{
  Dso, Environment, CompartmentConfig, Runtime, stack_size, set, allocate_stack, search_args,
  protect_compartment, ia2_setup_compartment, setup_configured,
}
use ia2_phase.Runtime.Pages.Regions.{is_protected}
use ia2_phase.Runtime.Start.Tags.{final_tag, final_tag-append, final_tag-untouched}
use ia2_phase.Base.{
  ℕ, Bool, List, Option, some, none, [], ◌∷◌, ◌++◌, ◌==◌, ◌+◌, ◌-◌, ◌%◌, ◌&&◌, ◌≡◌, ◌<◌,
  if◌then◌else◌, true, false, u64, not, leb, ltb, arith, refl, sym, ◌∙◌, ap, ◌≤◌, append_assoc,
  Returns, append-nil,
}

abbrev pub in_stack : ℕ → ℕ → Bool
in_stack stack a = leb stack a && ltb a (stack + stack_size)

-- The answers let the set-up of a configured compartment through: the library opens, its shared
-- data has both bounds or none, its stack is mapped in whole pages and protected, and so are its
-- libraries.
pub record Opens (env : Environment) (name : List ℕ) (i : ℕ) (extra : Option (List ℕ))
    : Type 0 where
  pub dso : Dso
  pub opened : env.open_dso name ≡ some dso
  pub bounded :
      (if dso.dso_shared_start == 0
        then dso.dso_shared_stop == 0
        else not (dso.dso_shared_stop == 0))
      ≡ true
  pub stack : ℕ
  pub mapped : env.map_stack i ≡ some stack
  pub in_pages : stack % 4096 ≡ 0
  pub fits : stack + stack_size < 18446744073709551616
  pub protected : env.protects (read_write stack stack_size i) ≡ true
  pub calls : List Protect
  pub libraries : protect_compartment env (search_args dso i extra) ≡ some calls

abbrev pub Cooperates : Environment → CompartmentConfig → ℕ → Type 0
Cooperates env config i = elim config.dso [
  | none ↦ config.extra_libraries ≡ none
  | some name ↦ Opens env name i config.extra_libraries
]

-- The compartment has the stack that was mapped for it; its stack pointer is 8 bytes below the top,
-- as far from a multiple of 16 as a call leaves it; and the last call for each address of the stack
-- gives it the compartment's key.
pub record HasStack (env : Environment) (i : ℕ) (u : Runtime) : Type 0 where
  pub stack : ℕ
  pub mapped : env.map_stack i ≡ some stack
  pub recorded : u.stacks i ≡ stack
  pub top : u.stackptrs i + 8 ≡ stack + stack_size
  pub aligned : (u.stackptrs i + 8) % 16 ≡ 0
  pub protected : (a : ℕ) → in_stack stack a ≡ true → final_tag u.calls none a ≡ some i

-- The set-up of a compartment does not touch an address: its stack was not mapped there, and the
-- calls for its libraries do not cover it.
abbrev pub StackApart : Environment → ℕ → ℕ → Type 0
StackApart env j a = (stack : ℕ) → env.map_stack j ≡ some stack → in_stack stack a ≡ false

abbrev pub LibrariesApart : Environment → CompartmentConfig → ℕ → ℕ → Type 0
LibrariesApart env config j a =
    (name : List ℕ) (dso : Dso) (calls : List Protect)
    → config.dso ≡ some name
    → env.open_dso name ≡ some dso
    → protect_compartment env (search_args dso j config.extra_libraries) ≡ some calls
    → is_protected calls a ≡ false

-- The stack of compartment `i` is memory of its own: no other configured compartment's stack was
-- mapped there, and neither a library nor the page of the thread pointer lies there.
pub record IsApart (env : Environment) (config : ℕ → CompartmentConfig) (i : ℕ) : Type 0 where
  pub stacks :
      (stack a j : ℕ) (name : List ℕ)
      → env.map_stack i ≡ some stack
      → in_stack stack a ≡ true
      → 1 ≤ j
      → j < 16
      → (config j).dso ≡ some name
      → (j == i) ≡ false
      → StackApart env j a
  pub libraries :
      (stack a j : ℕ)
      → env.map_stack i ≡ some stack
      → in_stack stack a ≡ true
      → 1 ≤ j
      → j < 16
      → LibrariesApart env (config j) j a
  pub thread_pointer :
      (stack a : ℕ)
      → env.map_stack i ≡ some stack
      → in_stack stack a ≡ true
      → (leb (page_down env.thread_pointer) a && ltb a (page_down env.thread_pointer + 4096))
        ≡ false

-- Only compartment `i` changes, and calls are added, for its stack and its libraries.
pub record Extends (env : Environment) (config : CompartmentConfig) (i : ℕ) (s u : Runtime)
    : Type 0 where
  pub stacks : (j : ℕ) → (j == i) ≡ false → u.stacks j ≡ s.stacks j
  pub stackptrs : (j : ℕ) → (j == i) ≡ false → u.stackptrs j ≡ s.stackptrs j
  pub more : List Protect
  pub appended : u.calls ≡ s.calls ++ more
  pub quiet :
      (a : ℕ)
      → ((name : List ℕ) → config.dso ≡ some name → StackApart env i a)
      → LibrariesApart env config i a
      → is_protected more a ≡ false

pub HasStack-Extends :
    (env : Environment) (config : ℕ → CompartmentConfig) (i j : ℕ) (s u : Runtime)
    → 1 ≤ i
    → i < 16
    → (i == j) ≡ false
    → (j == i) ≡ false
    → IsApart env config j
    → Extends env (config i) i s u
    → HasStack env j s
    → HasStack env j u
HasStack-Extends env config i j s u k l other apart own x h = record {
  stack = h.stack;
  mapped = h.mapped;
  recorded = x.stacks j apart ∙ h.recorded;
  top = ap (λ p. p + 8) (x.stackptrs j apart) ∙ h.top;
  aligned = ap (λ p. (p + 8) % 16) (x.stackptrs j apart) ∙ h.aligned;
  protected = λ a inside.
      ap (λ calls. final_tag calls none a) x.appended
      ∙ final_tag-append s.calls x.more none a
      ∙ final_tag-untouched x.more (final_tag s.calls none a) a (
          x.quiet a (λ name e. own.stacks h.stack a i name h.mapped inside k l e other)
            (own.libraries h.stack a i h.mapped inside k l))
      ∙ h.protected a inside;
}

-- The state after the set-up of a compartment.
after_setup :
    (env : Environment) (name : List ℕ) (i : ℕ) (extra : Option (List ℕ)) (s : Runtime)
    → Opens env name i extra
    → Runtime
after_setup env name i extra s o = record {
  stacks = set i o.stack s.stacks;
  stackptrs = set i (u64 (o.stack + stack_size - 8)) s.stackptrs;
  calls = (s.calls ++ read_write o.stack stack_size i ∷ []) ++ o.calls;
  init_finished = s.init_finished;
}

ia2_setup_compartment_lem :
    (env : Environment) (name : List ℕ) (i : ℕ) (extra : Option (List ℕ)) (s : Runtime)
    (o : Opens env name i extra)
    → 0 < i
    → s.stacks i ≡ 0
    → ia2_setup_compartment env name i extra s ≡ some (after_setup env name i extra s o)
unfolding ia2_setup_compartment allocate_stack after_setup
ia2_setup_compartment_lem env name i extra s o p z =
    let nonzero : (i == 0) ≡ false = ground arith in
    rw o.opened
      (rw o.bounded (rw o.mapped (rw nonzero (rw o.protected (rw z (rw o.libraries refl))))))

after_setup-Extends :
    (env : Environment) (name : List ℕ) (i : ℕ) (extra : Option (List ℕ)) (s : Runtime)
    (o : Opens env name i extra)
    → Extends env
        (record { dso = some name; extra_libraries = extra })
        i
        s
        (after_setup env name i extra s o)
unfolding after_setup
after_setup-Extends env name i extra s o = record {
  stacks = λ j apart. rw apart refl;
  stackptrs = λ j apart. rw apart refl;
  more = read_write o.stack stack_size i ∷ o.calls;
  appended = append_assoc s.calls (read_write o.stack stack_size i ∷ []) o.calls;
  quiet = λ a stack libraries.
      rw (stack name refl o.stack o.mapped)
        (libraries name o.dso o.calls refl o.opened o.libraries);
}

after_setup-HasStack :
    (env : Environment) (name : List ℕ) (i : ℕ) (extra : Option (List ℕ)) (s : Runtime)
    (o : Opens env name i extra)
    → ((stack a : ℕ)
        → env.map_stack i ≡ some stack
        → in_stack stack a ≡ true
        → LibrariesApart env (record { dso = some name; extra_libraries = extra }) i a)
    → HasStack env i (after_setup env name i extra s o)
unfolding after_setup
after_setup-HasStack env name i extra s o libraries =
    let same : (i == i) ≡ true = ground arith in
    let top : u64 (o.stack + stack_size - 8) + 8 ≡ o.stack + stack_size = omega (arith, o.fits) in
    let call = read_write o.stack stack_size i in
    record {
      stack = o.stack;
      mapped = o.mapped;
      recorded = rw same refl;
      top = rw same top;
      aligned = rw same (omega (arith, top, o.in_pages));
      protected = λ a k.
          final_tag-append (s.calls ++ call ∷ []) o.calls none a
          ∙ final_tag-untouched o.calls (final_tag (s.calls ++ call ∷ []) none a) a
              (libraries o.stack a o.mapped k name o.dso o.calls refl o.opened o.libraries)
          ∙ final_tag-append s.calls (call ∷ []) none a
          ∙ rw k refl;
    }

-- What the set-up of one compartment does, configured or not.
abbrev pub IsSetUp : Environment → CompartmentConfig → ℕ → Runtime → Runtime → Type 0
IsSetUp env config i s u =
    Extends env config i s u
    × ((name : List ℕ)
        → config.dso ≡ some name
        → ((stack a : ℕ)
            → env.map_stack i ≡ some stack
            → in_stack stack a ≡ true
            → LibrariesApart env config i a)
        → HasStack env i u)

pub setup_configured-IsSetUp :
    (env : Environment) (dso extra : Option (List ℕ)) (i : ℕ) (s : Runtime)
    → Cooperates env (record { dso = dso; extra_libraries = extra }) i
    → 0 < i
    → s.stacks i ≡ 0
    → Returns
        (setup_configured env (record { dso = dso; extra_libraries = extra }) i s)
        (IsSetUp env (record { dso = dso; extra_libraries = extra }) i s)
setup_configured-IsSetUp env none extra i s h p z = rw h (
  record {
    stacks = λ j k. refl;
    stackptrs = λ j k. refl;
    more = [];
    appended = sym (append-nil s.calls);
    quiet = λ a stack libraries. refl;
  },
  (λ name e libraries. cc),
)
setup_configured-IsSetUp env (some name) extra i s h p z =
    rw (ia2_setup_compartment_lem env name i extra s h p z) (
      after_setup-Extends env name i extra s h,
      (λ other e libraries. after_setup-HasStack env name i extra s h libraries),
    )
