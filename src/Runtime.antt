-- ===== src/Runtime.antt =====
-- runtime/libia2: what the runtime does at start-up. This module has the data of the dynamic linker
-- (ia2.c, ia2_internal.h) and the compartment of a PKRU value (ia2.c).
pub mod Names
pub mod Keys
pub mod Pages
pub mod Tls
pub mod Start
use ia2_phase.Base.{
  ℕ, Bool, List, Option, [], ◌∷◌, ◌==◌, ◌+◌, ◌&&◌, if◌then◌else◌, true, false, ltb, leb, u64, not,
}

-- `struct AddressRange`.
pub record AddressRange : Type 0 where
  pub start : ℕ
  pub stop : ℕ

pub data PhdrType : Type 0 where
  pt_load pt_gnu_relro pt_tls pt_other : PhdrType

abbrev pub is_load : PhdrType → Bool
is_load pt_load = true
is_load type = false

abbrev pub is_relro : PhdrType → Bool
is_relro pt_gnu_relro = true
is_relro type = false

abbrev pub is_tls : PhdrType → Bool
is_tls pt_tls = true
is_tls type = false

-- A program header.
pub record Phdr : Type 0 where
  pub p_type : PhdrType
  pub p_flags : ℕ
  pub p_vaddr : ℕ
  pub p_memsz : ℕ

-- `struct dl_phdr_info`; the name is that behind the last slash.
pub record DlPhdrInfo : Type 0 where
  pub dlpi_addr : ℕ
  pub library_name : List ℕ
  pub dlpi_phdr : List Phdr
  pub dlpi_tls_data : ℕ

abbrev pub segment_start : DlPhdrInfo → Phdr → ℕ
segment_start info phdr = u64 (info.dlpi_addr + phdr.p_vaddr)

abbrev pub in_segment : DlPhdrInfo → ℕ → Phdr → Bool
in_segment info address phdr =
    let start = segment_start info phdr in
    is_load phdr.p_type && leb start address && leb address (u64 (start + phdr.p_memsz))

unfoldable pub in_loaded_segment_of : DlPhdrInfo → ℕ → List Phdr → Bool
in_loaded_segment_of info address [] = false
in_loaded_segment_of info address (phdr ∷ phdrs) =
    if in_segment info address phdr then true else in_loaded_segment_of info address phdrs

abbrev pub in_loaded_segment : DlPhdrInfo → ℕ → Bool
unfolding in_loaded_segment_of
in_loaded_segment info address = in_loaded_segment_of info address info.dlpi_phdr

-- The cases of the switch on PKRU; any other value counts as compartment 0.
unfoldable pub ia2_get_compartment : ℕ → ℕ
ia2_get_compartment pkru =
    if pkru == 0xFFFFFFFC
    then 0
    else if pkru == 0xFFFFFFF0
    then 1
    else if pkru == 0xFFFFFFCC
    then 2
    else if pkru == 0xFFFFFF3C
    then 3
    else if pkru == 0xFFFFFCFC
    then 4
    else if pkru == 0xFFFFF3FC
    then 5
    else if pkru == 0xFFFFCFFC
    then 6
    else if pkru == 0xFFFF3FFC
    then 7
    else if pkru == 0xFFFCFFFC
    then 8
    else if pkru == 0xFFF3FFFC
    then 9
    else if pkru == 0xFFCFFFFC
    then 10
    else if pkru == 0xFF3FFFFC
    then 11
    else if pkru == 0xFCFFFFFC
    then 12
    else if pkru == 0xF3FFFFFC
    then 13
    else if pkru == 0xCFFFFFFC
    then 14
    else if pkru == 0x3FFFFFFC
    then 15
    else 0
