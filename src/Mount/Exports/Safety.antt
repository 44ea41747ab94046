-- ===== src/Mount/Exports/Safety.antt =====
-- Reading the exports never looks outside the buffer, and ends: `xdr_unpack_exports` of
-- nfs3_rpc_tests/src/mount_client.cpp.
use nfstest.Prelude.{
  ℕ, zero, suc, ◌+◌, ◌≤◌, ◌<◌, Bool, true, false, [], ◌∷◌, length, arith, if◌then◌else◌,
}
use nfstest.Xdr.Word.{Endianness}
use nfstest.Xdr.Buffer.{XdrBuffer, M, pure, ◌>>=◌, ◌>>◌, unpack_bool, unpack_string}
use nfstest.Xdr.Safety.{
  InReach, Sound, Safe, ReadOn-InReach, ReadOn-refl, Sound-bind, Safe-bool, Safe-if, Safe-pure,
  Safe-string, unpack_bool_took,
}
use nfstest.Mount.{xdr_unpack_fhstatus}
use nfstest.Mount.Status.{Safe-fhstatus}
use nfstest.Mount.Exports.{unpack_groups, unpack_all_groups, unpack_exports, xdr_unpack_exports}

-- The fuel covers the bytes that are left to read.
abbrev IsEnough : ℕ → XdrBuffer → Type 0
IsEnough fuel b = (1 ≤ fuel) × (length b.buffer < b.pos + fuel)

if-Sound :
    {A : Type 0} (flag : Bool) (e : Endianness) (b : XdrBuffer) (m n : M A)
    → Sound b (m e b)
    → Sound b (n e b)
    → Sound b ((if flag then m else n) e b)
if-Sound true e b m n h k = h
if-Sound false e b m n h k = k

unpack_groups-Sound :
    (fuel : ℕ) (e : Endianness) (b : XdrBuffer)
    → InReach b
    → IsEnough fuel b
    → Sound b (unpack_groups fuel e b)
unfolding unpack_groups ◌>>=◌ pure
unpack_groups-Sound zero e b h k = absurd (omega arith)
unpack_groups-Sound (suc fuel) e b h k =
    Sound-bind b (unpack_bool e b) e _ (Safe-bool.at e b h) λ has_grp b1 took h1.
      if-Sound has_grp e b1 _ (pure tt)
        (Sound-bind b1 (unpack_string e b1) e _ (Safe-string.at e b1 (ReadOn-InReach h1))
          λ grp b2 _ h2.
            unpack_groups-Sound fuel e b2 (ReadOn-InReach h2)
              (ground (arith, unpack_bool_took e b has_grp b1)))
        (ReadOn-refl (ReadOn-InReach h1))

Safe-all_groups : Safe unpack_all_groups
unfolding unpack_all_groups
Safe-all_groups = record {
  at = λ e b h. unpack_groups-Sound (suc (length b.buffer)) e b h (omega arith, omega arith);
}

unpack_exports-Sound :
    (fuel : ℕ) (e : Endianness) (b : XdrBuffer)
    → InReach b
    → IsEnough fuel b
    → Sound b (unpack_exports fuel e b)
unfolding unpack_exports ◌>>=◌ ◌>>◌ pure
unpack_exports-Sound zero e b h k = absurd (omega arith)
unpack_exports-Sound (suc fuel) e b h k =
    Sound-bind b (unpack_bool e b) e _ (Safe-bool.at e b h) λ has_entry b1 took h1.
      if-Sound has_entry e b1 _ (pure [])
        (Sound-bind b1 (unpack_string e b1) e _ (Safe-string.at e b1 (ReadOn-InReach h1))
          λ dir b2 _ h2.
            Sound-bind b2 (unpack_bool e b2) e _ (Safe-bool.at e b2 (ReadOn-InReach h2))
              λ has_groups b3 _ h3.
                Sound-bind b3 _ e _
                  ((Safe-if has_groups _ _ Safe-all_groups (Safe-pure tt)).at e b3
                    (ReadOn-InReach h3))
                  λ _ b4 _ h4.
                    Sound-bind b4 (unpack_bool e b4) e _ (Safe-bool.at e b4 (ReadOn-InReach h4))
                      λ more b5 _ h5.
                        if-Sound more e b5 _ (pure (dir ∷ []))
                          (Sound-bind b5 (unpack_exports fuel e b5) e _
                            (unpack_exports-Sound fuel e b5 (ReadOn-InReach h5)
                              (ground (arith, unpack_bool_took e b has_entry b1)))
                            λ dirs b6 _ h6. ReadOn-refl (ReadOn-InReach h6))
                          (ReadOn-refl (ReadOn-InReach h5)))
        (ReadOn-refl (ReadOn-InReach h1))

exports-Sound : (e : Endianness) (b : XdrBuffer) → InReach b → Sound b (xdr_unpack_exports e b)
unfolding xdr_unpack_exports
exports-Sound e b h = unpack_exports-Sound (suc (length b.buffer)) e b h (omega arith, omega arith)

-- Reading a reply of MNT or of EXPORT from any bytes returns or throws, never looks outside the
-- buffer, and ends. The read position was at most 3 past the end before.
pub mount_replies-Sound :
    (e : Endianness) (b : XdrBuffer)
    → InReach b
    → Sound b (xdr_unpack_fhstatus e b) × Sound b (xdr_unpack_exports e b)
mount_replies-Sound e b h = (Safe-fhstatus.at e b h, exports-Sound e b h)
