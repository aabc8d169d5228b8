-- ===== src/Runtime/Pages.antt =====
-- runtime/libia2/ia2.c, protect_pages: the writable segments of a compartment's library get its
-- key, except the shared ranges. Reading each page before has no effect that is modelled.
use ia2_phase.Runtime.Names.{in_extra_libraries}
pub mod Regions
pub mod Protected
use Prim.Native.Nat.{bit_and}
use ia2_phase.Runtime.{
  AddressRange, Phdr, DlPhdrInfo, in_loaded_segment, segment_start, in_loaded_segment_of, is_load,
  is_relro,
}
use ia2_phase.Base.{
  ℕ, Bool, List, Option, some, none, [], ◌∷◌, ◌==◌, ◌+◌, ◌-◌, ◌*◌, ◌/◌, ◌&&◌, ◌||◌, if◌then◌else◌,
  true, false, ltb, leb, u64, not, zero, suc, ◌>>=◌, assert, ◌++◌, length, bit_or, ◌>>◌,
}

-- A call of ia2_mprotect_with_tag.
pub record Protect : Type 0 where
  pub addr : ℕ
  pub len : ℕ
  pub prot : ℕ
  pub tag : ℕ

-- One pass of the loop that adjusts `start` and `cur_end`.
unfoldable pub bound_step : AddressRange → ℕ × ℕ → ℕ × ℕ
bound_step r (start, cur_end) =
    let s = if leb r.start start && ltb start r.stop then r.stop else start in
    (s, if ltb s r.start && ltb r.start cur_end then r.start else cur_end)

unfoldable pub bound_region : List AddressRange → ℕ × ℕ → ℕ × ℕ
unfolding bound_step
bound_region [] bounds = bounds
bound_region (r ∷ ranges) bounds = bound_region ranges (bound_step r bounds)

-- `succeeds` is the answer of the kernel to a call; a failure ends the process.
module _ (succeeds : Protect → Bool) where
  -- `while (start < seg_end)`. Each pass moves `start` up, so `seg_end - start` passes are enough.
  unfoldable pub protect_segment : ℕ → List AddressRange → ℕ → ℕ → ℕ → ℕ → Option (List Protect)
  unfolding bound_region
  protect_segment zero ranges prot tag start seg_end = some []
  protect_segment (suc fuel) ranges prot tag start seg_end = elim (ltb start seg_end) [
    | false ↦ some []
    | true ↦
        let bounds = bound_region ranges (start, seg_end) in
        elim (ltb bounds.0 bounds.1) [
          | false ↦ protect_segment fuel ranges prot tag bounds.0 seg_end
          | true ↦
              let call : Protect = record {
                addr = bounds.0;
                len = bounds.1 - bounds.0;
                prot = prot;
                tag = tag;
              } in
              (do
                assert (succeeds call)
                rest ← protect_segment fuel ranges prot tag bounds.1 seg_end
                some (call ∷ rest))
        ]
  ]

-- `struct IA2SharedSection`; 0 is the null pointer.
pub record SharedSection : Type 0 where
  pub start : ℕ
  pub end_address : ℕ

abbrev pub page_down : ℕ → ℕ
page_down a = a / 4096 * 4096

-- At most as many sections as the fuel, up to one without bounds; `none` for one that is not of
-- whole pages.
unfoldable pub shared_ranges : ℕ → List SharedSection → Option (List AddressRange)
shared_ranges zero sections = some []
shared_ranges (suc left) [] = some []
shared_ranges (suc left) (s ∷ sections) =
    let rest = shared_ranges left sections in
    if s.start == 0 || s.end_address == 0 then some [] else (do
      assert (page_down s.start == s.start)
      assert (page_down (u64 (s.end_address + 4095)) == s.end_address)
      ranges ← rest
      some (record { start = s.start; stop = s.end_address } ∷ ranges))

-- The pages from the start of a header's memory, and to its end.
abbrev pub first_page : DlPhdrInfo → Phdr → ℕ
first_page info phdr = page_down (segment_start info phdr)

abbrev pub last_page : DlPhdrInfo → Phdr → ℕ
last_page info phdr = page_down (u64 (info.dlpi_addr + phdr.p_vaddr + phdr.p_memsz + 4095))

-- The RELRO section, if any.
unfoldable pub relro_range : DlPhdrInfo → List Phdr → List AddressRange
relro_range info [] = []
relro_range info (phdr ∷ phdrs) =
    if not (is_relro phdr.p_type)
    then relro_range info phdrs
    else record { start = first_page info phdr; stop = last_page info phdr } ∷ []

-- PF_X is 1, PF_W is 2 and PF_R is 4.
abbrev pub has_bit : ℕ → ℕ → Bool
has_bit flags bit = not (bit_and flags bit == 0)

abbrev pub segment_flags_to_access_flags : ℕ → ℕ
segment_flags_to_access_flags flags =
    bit_or (bit_or (if has_bit flags 1 then 4 else 0) (if has_bit flags 2 then 2 else 0))
      (if has_bit flags 4 then 1 else 0)

-- `struct PhdrSearchArgs`.
pub record PhdrSearchArgs : Type 0 where
  pub pkey : ℕ
  pub address : ℕ
  pub extra_libraries : Option (List ℕ)
  pub found_library_count : ℕ
  pub shared_sections : List SharedSection

-- Read-only memory is not protected.
abbrev pub is_protectable : Phdr → Bool
is_protectable phdr = is_load phdr.p_type && has_bit phdr.p_flags 2

module _ (succeeds : Protect → Bool) where
  unfoldable pub protect_segments :
      DlPhdrInfo → ℕ → List AddressRange → List Phdr → Option (List Protect)
  unfolding protect_segment
  protect_segments info pkey ranges [] = some []
  protect_segments info pkey ranges (phdr ∷ phdrs) =
      let rest = protect_segments info pkey ranges phdrs in
      if not (is_protectable phdr) then rest else (do
        calls ←
            protect_segment succeeds (last_page info phdr - first_page info phdr) ranges
              (segment_flags_to_access_flags phdr.p_flags) pkey (first_page info phdr)
              (last_page info phdr)
        others ← rest
        some (calls ++ others))

  -- The calls for one object, and the libraries found so far; `none` where the process ends.
  unfoldable pub protect_pages : DlPhdrInfo → PhdrSearchArgs → Option (List Protect × ℕ)
  unfolding in_loaded_segment_of in_extra_libraries shared_ranges relro_range protect_segments
  protect_pages info args =
      let extra = in_extra_libraries info.library_name args.extra_libraries in
      if not (in_loaded_segment info args.address) && not extra
      then some ([], args.found_library_count)
      else (do
        shared ← shared_ranges 4 args.shared_sections
        assert (leb (length info.dlpi_phdr) 20)
        calls ←
            protect_segments info args.pkey (shared ++ relro_range info info.dlpi_phdr)
              info.dlpi_phdr
        some (calls, if extra then args.found_library_count + 1 else args.found_library_count))
