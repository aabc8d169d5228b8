-- ===== src/Runtime/Tls.antt =====
-- runtime/libia2/ia2.c, protect_tls_pages: the thread-local memory of a compartment's library gets
-- its key, except the page of the stack pointer of compartment 0.
pub mod Covered
use ia2_phase.Runtime.{Phdr, DlPhdrInfo, in_loaded_segment, in_loaded_segment_of, is_tls}
use ia2_phase.Runtime.Pages.{Protect, PhdrSearchArgs, page_down}
use ia2_phase.Base.{
  ℕ, Bool, List, Option, some, none, [], ◌∷◌, ◌==◌, ◌+◌, ◌-◌, ◌*◌, ◌/◌, ◌%◌, ◌&&◌, if◌then◌else◌,
  true, false, ltb, leb, u64, not, ◌>>=◌, ◌>>◌, assert, ◌++◌,
}

abbrev pub read_write : ℕ → ℕ → ℕ → Protect
read_write addr len pkey = record { addr = addr; len = len; prot = 3; tag = pkey }

-- `start` rounded down, and the end of the region.
abbrev pub tls_start : DlPhdrInfo → ℕ
tls_start info = page_down info.dlpi_tls_data

abbrev pub tls_len : DlPhdrInfo → Phdr → ℕ
tls_len info phdr = page_down (u64 (phdr.p_memsz + info.dlpi_tls_data % 4096))

abbrev pub tls_end : DlPhdrInfo → Phdr → ℕ
tls_end info phdr = u64 (tls_start info + tls_len info phdr)

module _ (succeeds : Protect → Bool) where
  -- A call that is made under a condition; `none` where it fails.
  abbrev protect_if : Bool → Protect → Option (List Protect)
  protect_if false call = some []
  protect_if true call = do assert (succeeds call); some (call ∷ [])

  -- The region is split around the page of `ia2_stackptr_0`, if it holds it.
  unfoldable pub protect_tls_segment : ℕ → ℕ → DlPhdrInfo → Phdr → Option (List Protect)
  protect_tls_segment untrusted pkey info phdr = do
    assert (not (tls_len info phdr == 0))
    assert (untrusted % 4096 == 0)
    if leb info.dlpi_tls_data untrusted && ltb untrusted (tls_end info phdr)
        then (do
          assert (pkey == 1)
          before ←
              protect_if (ltb (tls_start info) untrusted)
                (read_write (tls_start info) (untrusted - tls_start info) pkey)
          let after_start = u64 (untrusted + 0x1000) in
              let after_len = u64 (tls_end info phdr + 18446744073709551616 - after_start) in
              (do
                after ← protect_if (ltb 0 after_len) (read_write after_start after_len pkey)
                some (before ++ after)))
        else protect_if true (read_write (tls_start info) (tls_len info phdr) pkey)

  unfoldable pub protect_tls_segments : ℕ → ℕ → DlPhdrInfo → List Phdr → Option (List Protect)
  unfolding protect_tls_segment
  protect_tls_segments untrusted pkey info [] = some []
  protect_tls_segments untrusted pkey info (phdr ∷ phdrs) =
      let rest = protect_tls_segments untrusted pkey info phdrs in
      if not (is_tls phdr.p_type) then rest else (do
        calls ← protect_tls_segment untrusted pkey info phdr
        others ← rest
        some (calls ++ others))

  unfoldable pub protect_tls_pages : ℕ → DlPhdrInfo → PhdrSearchArgs → Option (List Protect)
  unfolding in_loaded_segment_of protect_tls_segments
  protect_tls_pages untrusted info args =
      if not (in_loaded_segment info args.address)
      then some []
      else protect_tls_segments untrusted args.pkey info info.dlpi_phdr
