-- ===== src/Tests/Booting.antt =====
-- The start of the runtime with two compartments, each with a library of its own.
use ia2_phase.Tests.Startup.{code, variables, library, obliging}
use ia2_phase.Runtime.Start.{
  Environment, CompartmentConfig, set_up_tags_from, protect_compartment, search_args, ia2_start,
  Dso,
}
use ia2_phase.Runtime.Start.Stacks.{Boots, ia2_start-HasStack}
use ia2_phase.Runtime.Start.Setup.{Opens, HasStack, Cooperates, IsApart}
use ia2_phase.Runtime.{DlPhdrInfo}
use ia2_phase.Runtime.Pages.{Protect}
use ia2_phase.Runtime.Pages.Regions.{is_protected}
use ia2_phase.Base.{
  ℕ, List, some, none, [], ◌∷◌, ◌+◌, ◌≡◌, true, refl, arith, Returns, if◌then◌else◌, ◌==◌, ◌*◌, ◌≤◌,
  Bool-cases, inl, subst, inr, sym, false, some-injective, ◌∙◌, ap, length,
}

-- A second library, without thread-local and shared data.
abbrev second_library : DlPhdrInfo
second_library = record {
  dlpi_addr = 0x50000;
  library_name = 99 ∷ [];
  dlpi_phdr = code ∷ variables ∷ [];
  dlpi_tls_data = 0;
}

-- What dlopen and dlsym give for the file of a compartment.
abbrev opened_dso : ℕ → Dso
opened_dso i =
    if i == 1
    then record { dso_addr = 0x10100; dso_shared_start = 0x14000; dso_shared_stop = 0x15000 }
    else record { dso_addr = 0x50100; dso_shared_start = 0; dso_shared_stop = 0 }

-- Compartments 1 and 2 are configured, each with a library whose file is named by its number.
abbrev environment : Environment
environment = record {
  map_stack = λ i. some (0x10000000 + i * 0x1000000);
  protects = obliging;
  pkey_alloc = λ pkey. some pkey;
  open_dso = λ name. some (opened_dso (length name));
  objects = library ∷ second_library ∷ [];
  untrusted_stackptr = 0x21000;
  first_stackptr = 0x22000;
  thread_pointer = 0x24680;
}

abbrev configuration : ℕ → CompartmentConfig
configuration i = record {
  dso = if i == 1 then some (97 ∷ []) else if i == 2 then some (97 ∷ 97 ∷ []) else none;
  extra_libraries = none;
}

boots : Boots environment
unfolding set_up_tags_from
boots = record { tags = refl; padded = refl; stack = 0x10000000; mapped = refl; shared = refl }

abbrev library_calls : ℕ → List Protect
library_calls i =
    if i == 1
    then (record { addr = 0x13000; len = 0x1000; prot = 3; tag = 1 }
        ∷ record { addr = 0x15000; len = 0x1000; prot = 3; tag = 1 }
        ∷ record { addr = 0x20000; len = 0x1000; prot = 3; tag = 1 }
        ∷ record { addr = 0x22000; len = 0x1000; prot = 3; tag = 1 }
        ∷ [])
    else record { addr = 0x52000; len = 0x4000; prot = 3; tag = 2 } ∷ []

abbrev Listing : ℕ → Type 0
Listing i =
    protect_compartment environment (search_args (opened_dso i) i none) ≡ some (library_calls i)

first_calls : Listing 1
unfolding protect_compartment
first_calls = refl

second_calls : Listing 2
unfolding protect_compartment
second_calls = refl

first_setup : Opens environment (97 ∷ []) 1 none
first_setup = record {
  dso = opened_dso 1;
  opened = refl;
  bounded = refl;
  stack = 0x11000000;
  mapped = refl;
  in_pages = refl;
  fits = omega arith;
  protected = refl;
  calls = library_calls 1;
  libraries = first_calls;
}

second_setup : Opens environment (97 ∷ 97 ∷ []) 2 none
second_setup = record {
  dso = opened_dso 2;
  opened = refl;
  bounded = refl;
  stack = 0x12000000;
  mapped = refl;
  in_pages = refl;
  fits = omega arith;
  protected = refl;
  calls = library_calls 2;
  libraries = second_calls;
}

-- A property of the two compartments and of those that are not configured holds of all.
by_compartment :
    (P : ℕ → Type 0)
    → P 1
    → P 2
    → ((j : ℕ) → (j == 1) ≡ false → (j == 2) ≡ false → P j)
    → (j : ℕ) → P j
by_compartment P one two others j = elim (Bool-cases (j == 1)) [
  | inl h ↦ let eq : 1 ≡ j = ground arith in subst P eq one
  | inr h ↦ elim (Bool-cases (j == 2)) [
    | inl k ↦ let eq : 2 ≡ j = ground arith in subst P eq two
    | inr k ↦ others j h k
  ]
]

cooperates : (j : ℕ) → Cooperates environment (configuration j) j
cooperates =
    by_compartment (λ j. Cooperates environment (configuration j) j) first_setup second_setup
      (λ j h k. rw (h, k) refl)

-- No call for the libraries reaches the stacks.
abbrev FarBelow : ℕ → Type 0
FarBelow j =
    (a : ℕ) (name : List ℕ) (dso : Dso) (calls : List Protect)
    → 0x11000000 ≤ a
    → (configuration j).dso ≡ some name
    → environment.open_dso name ≡ some dso
    → protect_compartment environment (search_args dso j none) ≡ some calls
    → is_protected calls a ≡ false

far_below : (j : ℕ) → FarBelow j
far_below =
    by_compartment FarBelow
      (λ a name dso calls above e f g.
        let same = some-injective _ _ e in
        let d : opened_dso 1 ≡ dso = ap (λ n. opened_dso (length n)) same ∙ some-injective _ _ f in
        let listed : library_calls 1 ≡ calls = some-injective _ _ (
          sym first_calls
          ∙ ap (λ x. protect_compartment environment (search_args x 1 none)) d
          ∙ g) in
        subst (λ cs. is_protected cs a ≡ false) listed (ground arith))
      (λ a name dso calls above e f g.
        let same = some-injective _ _ e in
        let d : opened_dso 2 ≡ dso = ap (λ n. opened_dso (length n)) same ∙ some-injective _ _ f in
        let listed : library_calls 2 ≡ calls = some-injective _ _ (
          sym second_calls
          ∙ ap (λ x. protect_compartment environment (search_args x 2 none)) d
          ∙ g) in
        subst (λ cs. is_protected cs a ≡ false) listed (ground arith))
      (λ j h k a name dso calls above e f g. absurd (ground arith))

apart : IsApart environment configuration 1
apart = record {
  stacks = λ stack a j name e inside f l g other other_stack m.
      ground (arith, some-injective _ _ e, some-injective _ _ m);
  libraries = λ stack a j e inside f l name dso calls g opened protected.
      far_below j a name dso calls (ground (arith, some-injective _ _ e)) g opened protected;
  thread_pointer = λ stack a e inside. ground (arith, some-injective _ _ e);
}

ia2_start-HasStack_example :
    Returns
      (ia2_start environment configuration)
      (λ u. (u.init_finished ≡ true) × HasStack environment 1 u)
ia2_start-HasStack_example =
    ia2_start-HasStack environment configuration 1 (97 ∷ []) boots (λ j h l. cooperates j)
      (omega arith) (omega arith) refl apart
