-- ===== src/Tests/Startup.antt =====
-- The protection at the start of the runtime, for a concrete library.
use ia2_phase.Tracer.Keys.{pkey_for_pkru, pkey_invalid}
use ia2_phase.Runtime.Keys.{ia2_get_compartment-pkey_for_pkru}
use ia2_phase.Runtime.{
  Phdr, PhdrType, DlPhdrInfo, AddressRange, in_loaded_segment, in_loaded_segment_of,
  ia2_get_compartment,
}
use ia2_phase.Runtime.Names.{in_extra_libraries}
use ia2_phase.Runtime.Names.Entries.{IsEntry, Agree, in_extra_libraries_iff}
use ia2_phase.Runtime.Pages.{Protect, PhdrSearchArgs, shared_ranges, relro_range, protect_pages}
use ia2_phase.Runtime.Pages.Regions.{is_protected}
use ia2_phase.Runtime.Pages.Protected.{AreProtected, protect_pages-AreProtected}
use ia2_phase.Runtime.Tls.{protect_tls_segment, tls_start, tls_end}
use ia2_phase.Runtime.Tls.Covered.{is_split, protect_tls_segment-covered}
use ia2_phase.Base.{
  ℕ, Bool, List, some, none, [], ◌∷◌, ◌++◌, ◌+◌, ◌&&◌, ◌||◌, ◌≡◌, ◌↔◌, true, not, leb, ltb, refl,
  arith, Returns, if◌then◌else◌, ◌==◌,
}

abbrev pub code : Phdr
code = record { p_type = PhdrType.pt_load; p_flags = 5; p_vaddr = 0; p_memsz = 0x1800 }

abbrev pub variables : Phdr
variables = record { p_type = PhdrType.pt_load; p_flags = 6; p_vaddr = 0x2000; p_memsz = 0x3010 }

abbrev relro : Phdr
relro = record { p_type = PhdrType.pt_gnu_relro; p_flags = 4; p_vaddr = 0x2000; p_memsz = 0x800 }

abbrev thread_locals : Phdr
thread_locals = record { p_type = PhdrType.pt_tls; p_flags = 4; p_vaddr = 0x6000; p_memsz = 0x3000 }

abbrev pub library : DlPhdrInfo
library = record {
  dlpi_addr = 0x10000;
  library_name = 97 ∷ 98 ∷ [];
  dlpi_phdr = code ∷ variables ∷ relro ∷ thread_locals ∷ [];
  dlpi_tls_data = 0x20010;
}

abbrev arguments : PhdrSearchArgs
arguments = record {
  pkey = 1;
  address = 0x10100;
  extra_libraries = none;
  found_library_count = 0;
  shared_sections =
      record { start = 0x14000; end_address = 0x15000 }
      ∷ record { start = 0; end_address = 0 }
      ∷ [];
}

abbrev shared : List AddressRange
shared = record { start = 0x14000; stop = 0x15000 } ∷ []

abbrev pub obliging : Protect → Bool
obliging call = true

in_scope : (in_loaded_segment library 0x10100 || in_extra_libraries (97 ∷ 98 ∷ []) none) ≡ true
unfolding in_loaded_segment_of
in_scope = refl

sections : shared_ranges 4 arguments.shared_sections ≡ some shared
unfolding shared_ranges
sections = refl

protect_pages-AreProtected_example : Returns (protect_pages obliging library arguments) (λ r.
    AreProtected library 1 (shared ++ relro_range library library.dlpi_phdr) library.dlpi_phdr r.0)
protect_pages-AreProtected_example =
    protect_pages-AreProtected obliging (λ c. refl) library arguments shared in_scope sections
      (omega arith)

protect_tls_segment-covered_example :
    Returns (protect_tls_segment obliging 0x21000 1 library thread_locals) (λ calls.
      (a : ℕ)
      → is_protected calls a ≡ (
          leb (tls_start library) a
          && ltb a (tls_end library thread_locals)
          && not (
              is_split 0x21000 library thread_locals && (leb 0x21000 a && ltb a (0x21000 + 4096)))))
protect_tls_segment-covered_example =
    protect_tls_segment-covered obliging (λ c. refl) 0x21000 1 library thread_locals (omega arith)
      (omega arith) refl (λ e. refl)

-- The name `ab` in the list `x;abc`.
in_extra_libraries_iff_example :
    (in_extra_libraries (97 ∷ 98 ∷ []) (some (120 ∷ 59 ∷ 97 ∷ 98 ∷ 99 ∷ [])) ≡ true)
    ↔ ((entry : List ℕ) × IsEntry entry (120 ∷ 59 ∷ 97 ∷ 98 ∷ 99 ∷ []) × Agree entry (97 ∷ 98 ∷ []))
in_extra_libraries_iff_example =
    in_extra_libraries_iff 97 (98 ∷ []) (120 ∷ 59 ∷ 97 ∷ 98 ∷ 99 ∷ [])
      ((λ e. omega arith), ((λ e. omega arith), tt))

compartment_1 : ia2_get_compartment 0xFFFFFFF0 ≡ 1
unfolding ia2_get_compartment
compartment_1 = refl

ia2_get_compartment-pkey_for_pkru_example :
    ia2_get_compartment 0xFFFFFFF0
    ≡ (if pkey_for_pkru 0xFFFFFFF0 == pkey_invalid then 0 else pkey_for_pkru 0xFFFFFFF0)
ia2_get_compartment-pkey_for_pkru_example = ia2_get_compartment-pkey_for_pkru 0xFFFFFFF0
