-- ===== src/Runtime/Start.antt =====
-- runtime/libia2/init.c: the keys, the stacks and the protection of each compartment at the start,
-- on x86-64. What the kernel and the dynamic linker answer is an argument; `none` is the end of the
-- process.
pub mod Tags
pub mod Setup
pub mod Stacks
use ia2_phase.Runtime.{DlPhdrInfo}
use ia2_phase.Runtime.Pages.{Protect, PhdrSearchArgs, SharedSection, protect_pages, page_down}
use ia2_phase.Runtime.Tls.{read_write, protect_tls_pages}
use ia2_phase.Base.{
  ℕ, Bool, List, Option, some, none, [], ◌∷◌, ◌++◌, ◌==◌, ◌+◌, ◌-◌, if◌then◌else◌, true, false,
  zero, suc, u64, not, ◌>>=◌, ◌>>◌, assert, ltb,
}

-- A library that was opened: an address in it, and the bounds of its shared data or null pointers.
pub record Dso : Type 0 where
  pub dso_addr : ℕ
  pub dso_shared_start : ℕ
  pub dso_shared_stop : ℕ

-- The answers of mmap for the stack of a compartment, of pkey_mprotect, of the calls of pkey_alloc
-- in turn, of dlopen and dlsym for a name, and of dl_iterate_phdr; the addresses of `ia2_stackptr_0`
-- and `ia2_stackptr_1`, and the thread pointer.
pub record Environment : Type 0 where
  pub map_stack : ℕ → Option ℕ
  pub protects : Protect → Bool
  pub pkey_alloc : ℕ → Option ℕ
  pub open_dso : List ℕ → Option Dso
  pub objects : List DlPhdrInfo
  pub untrusted_stackptr : ℕ
  pub first_stackptr : ℕ
  pub thread_pointer : ℕ

-- `struct CompartmentConfig`.
pub record CompartmentConfig : Type 0 where
  pub dso : Option (List ℕ)
  pub extra_libraries : Option (List ℕ)

-- The arrays `stacks` and `ia2_stackptr_N`, and the calls of ia2_mprotect_with_tag.
pub record Runtime : Type 0 where
  pub stacks : ℕ → ℕ
  pub stackptrs : ℕ → ℕ
  pub calls : List Protect
  pub init_finished : Bool

abbrev pub stack_size : ℕ
stack_size = 4194304

abbrev pub set : ℕ → ℕ → (ℕ → ℕ) → ℕ → ℕ
set i v f j = if j == i then v else f j

-- The stack of compartment 0 is not protected.
abbrev pub stack_calls : Environment → ℕ → ℕ → Option (List Protect)
stack_calls env i stack = if i == 0 then some [] else (do
  assert (env.protects (read_write stack stack_size i))
  some (read_write stack stack_size i ∷ []))

-- The new state and the top of the stack.
unfoldable pub allocate_stack : Environment → ℕ → Runtime → Option (Runtime × ℕ)
allocate_stack env i s = do
  stack ← env.map_stack i
  calls ← stack_calls env i stack
  assert (s.stacks i == 0)
  some (
    record s { stacks = set i stack s.stacks; calls = s.calls ++ calls },
    u64 (stack + stack_size - 8),
  )

unfoldable pub allocate_stack_0 : Environment → Runtime → Option Runtime
unfolding allocate_stack
allocate_stack_0 env s = do
  (s', sp) ← allocate_stack env 0 s
  some (record s' { stackptrs = set 0 sp s'.stackptrs })

-- The keys from `pkey` on have to come in order.
unfoldable pub set_up_tags_from : Environment → ℕ → ℕ → Bool
set_up_tags_from env zero pkey = true
set_up_tags_from env (suc n) pkey = elim (env.pkey_alloc pkey) [
  | none ↦ false
  | some allocated ↦ if allocated == pkey then set_up_tags_from env n (pkey + 1) else false
]

abbrev pub count_semicolons : List ℕ → ℕ
count_semicolons [] = 0
count_semicolons (c ∷ cs) = if c == 59 then suc (count_semicolons cs) else count_semicolons cs

abbrev pub extra_library_count : Option (List ℕ) → ℕ
extra_library_count none = 0
extra_library_count (some names) = suc (count_semicolons names)

-- dl_iterate_phdr with protect_pages, which counts the extra libraries in its argument.
unfoldable pub protect_objects :
    Environment → PhdrSearchArgs → List DlPhdrInfo → Option (List Protect × ℕ)
unfolding protect_pages
protect_objects env args [] = some ([], args.found_library_count)
protect_objects env args (info ∷ objects) = do
  (calls, count) ← protect_pages env.protects info args
  (others, total) ← protect_objects env (record args { found_library_count = count }) objects
  some (calls ++ others, total)

unfoldable pub protect_tls_objects :
    Environment → PhdrSearchArgs → List DlPhdrInfo → Option (List Protect)
unfolding protect_tls_pages
protect_tls_objects env args [] = some []
protect_tls_objects env args (info ∷ objects) = do
  calls ← protect_tls_pages env.protects env.untrusted_stackptr info args
  others ← protect_tls_objects env args objects
  some (calls ++ others)

abbrev pub search_args : Dso → ℕ → Option (List ℕ) → PhdrSearchArgs
search_args dso compartment extra = record {
  pkey = compartment;
  address = dso.dso_addr;
  extra_libraries = extra;
  found_library_count = 0;
  shared_sections =
      record { start = dso.dso_shared_start; end_address = dso.dso_shared_stop }
      ∷ record { start = 0; end_address = 0 }
      ∷ [];
}

-- The memory of the libraries of a compartment.
unfoldable pub protect_compartment : Environment → PhdrSearchArgs → Option (List Protect)
unfolding protect_objects protect_tls_objects
protect_compartment env args = do
  (calls, found) ← protect_objects env args env.objects
  assert (extra_library_count args.extra_libraries == found)
  tls ← protect_tls_objects env args env.objects
  some (calls ++ tls)

-- Its compartment is never 0 in ia2_start.
unfoldable pub ia2_setup_compartment :
    Environment → List ℕ → ℕ → Option (List ℕ) → Runtime → Option Runtime
unfolding allocate_stack protect_compartment
ia2_setup_compartment env name compartment extra s = do
  dso ← env.open_dso name
  assert (
      if dso.dso_shared_start == 0
      then dso.dso_shared_stop == 0
      else not (dso.dso_shared_stop == 0))
  (s', sp) ← allocate_stack env compartment s
  calls ← protect_compartment env (search_args dso compartment extra)
  some (record s' { stackptrs = set compartment sp s'.stackptrs; calls = s'.calls ++ calls })

abbrev pub is_none {ℓ} : {A : Type ℓ} → Option A → Bool
is_none none = true
is_none (some a) = false

abbrev pub setup_configured : Environment → CompartmentConfig → ℕ → Runtime → Option Runtime
setup_configured env config i s = elim config.dso [
  | none ↦ do assert (is_none config.extra_libraries); some s
  | some name ↦ ia2_setup_compartment env name i config.extra_libraries s
]

-- `for (int i = 1; i < IA2_MAX_COMPARTMENTS; i++)`, for the `n` compartments from `i` on.
unfoldable pub setup_compartments :
    Environment → (ℕ → CompartmentConfig) → ℕ → ℕ → Runtime → Option Runtime
unfolding ia2_setup_compartment
setup_compartments env config zero i s = some s
setup_compartments env config (suc n) i s = do
  s' ← setup_configured env (config i) i s
  setup_compartments env config n (i + 1) s'

abbrev pub initial : Runtime
initial = record { stacks = λ i. 0; stackptrs = λ i. 0; calls = []; init_finished = false }

-- Not for compartment 0.
unfoldable pub ia2_register_compartment :
    List ℕ → ℕ → Option (List ℕ) → (ℕ → CompartmentConfig) → Option (ℕ → CompartmentConfig)
ia2_register_compartment name compartment extra config = do
  assert (not (compartment == 0))
  assert (ltb compartment 16)
  some (λ j.
      if j == compartment then record { dso = some name; extra_libraries = extra } else config j)

-- verify_tls_padding.
abbrev pub is_padded : Environment → Bool
is_padded env = not (page_down env.first_stackptr == page_down env.untrusted_stackptr)

-- The page of the thread pointer stays shared.
unfoldable pub ia2_unprotect_thread_pointer_page : Environment → Runtime → Option Runtime
ia2_unprotect_thread_pointer_page env s =
    let call = read_write (page_down env.thread_pointer) 4096 0 in
    (do assert (env.protects call); some (record s { calls = s.calls ++ call ∷ [] }))

-- From the configuration that ia2_main registered to the signal that the initialization is over.
unfoldable pub ia2_start : Environment → (ℕ → CompartmentConfig) → Option Runtime
unfolding set_up_tags_from allocate_stack_0 setup_compartments ia2_unprotect_thread_pointer_page
ia2_start env config = do
  assert (set_up_tags_from env 15 1)
  assert (is_padded env)
  s ← allocate_stack_0 env initial
  s' ← setup_compartments env config 15 1 s
  u ← ia2_unprotect_thread_pointer_page env s'
  some (record u { init_finished = true })
