-- ===== src/Tirpc/Agree/Listing.antt =====
-- Directory listings: the bytes of their layout, from which the decoder makes none of the entries.
use nfstest.Prelude.{ℕ, zero, suc, ◌<◌, true, false, List, [], ◌∷◌, length, arith}
use nfstest.Xdr.Word.{IsU64}
use nfstest.Xdr.Buffer
use nfstest.Xdr.Buffer.{pack_bool}
use nfstest.Xdr.Codec.{Codec, Fresh, pack, fresh}
use nfstest.Nfs.Attributes.{nfs_fh3_fresh, post_op_attr_fresh}
use nfstest.Nfs.Attributes.RoundTrip.{PostOpAttrFits}
use nfstest.Nfs.Chain.{pack_chain}
use nfstest.Nfs.Directory.{
  Entry3, entry3_codec, entry3_fresh, Dirlist3, dirlist3_fresh, dirlistplus3_fresh, Readdir3Resok,
  readdir3_resok_fresh, Entryplus3, entryplus3_codec, entryplus3_fresh, Dirlistplus3,
  Readdirplus3Resok, readdirplus3_resok_fresh,
}
use nfstest.Tirpc.Stream.{Op, encode, decode, M, done, ◌>>◌, XdrLib, XdrLaws}
use nfstest.Tirpc.Listing.{
  encode_entries, decode_entries, xdr_entry_list, xdr_entry3, xdr_entry3_list,
  xdr_dirlist3_internal, xdr_entryplus3, xdr_entryplus3_list, xdr_dirlistplus3_internal,
  xdr_readdir3_resok, xdr_readdirplus3_resok,
}
use nfstest.Tirpc.Layout.{list_layout, readdir3_resok_layout, readdirplus3_resok_layout}
use nfstest.Tirpc.Agree.{Agrees, Agrees-then, Agrees-last, Agrees-pure}
use nfstest.Tirpc.Agree.Values.{
  IsText, Agrees-u_hyper, Agrees-text, Agrees-flag, Agrees-flag_word, Agrees-raw_u64,
}
use nfstest.Tirpc.Agree.Attributes.{IsHandle, Agrees-nfs_fh3, Agrees-post_op_attr}

abbrev pub AllEntries : {A : Type 0} → (A → Type 0) → List A → Type 0
AllEntries P [] = Unit {0}
AllEntries P (entry ∷ next) = P entry × AllEntries P next

-- Each entry is in its ranges, and there is more fuel than entries.
abbrev pub SendableList : {A : Type 0} → (A → Type 0) → ℕ → List A → Type 0
SendableList P fuel entries = AllEntries P entries × (length entries < fuel)

module _ ⦃lib : XdrLib⦄ (laws : XdrLaws lib) where
  module _ {A : Type 0} ⦃c : Codec A⦄ ⦃f : Fresh A⦄ {P : A → Type 0}
      (xdr_entry : Op → A → M lib.Stream A)
      (agree : (a : A)
        → P a
        → Agrees laws (pack a) (xdr_entry encode a) (xdr_entry decode fresh) a (done a)) where
    pub Agrees-entries :
        (fuel : ℕ) (entries : List A)
        → SendableList P fuel entries
        → Agrees laws
            (list_layout entries)
            (encode_entries xdr_entry entries)
            (decode_entries xdr_entry fuel)
            tt
            (done tt)
    unfolding encode_entries decode_entries pack_chain ◌>>◌
    Agrees-entries zero entries (h, k) = absurd (omega arith)
    Agrees-entries (suc fuel) [] h =
        Agrees-then _ _ _ (Agrees-flag_word laws false) (Agrees-pure tt tt)
    Agrees-entries (suc fuel) (entry ∷ next) ((p, h), k) =
        Agrees-then _ _ _ (Agrees-flag_word laws true)
          (Agrees-then _ _ _ (agree entry p) (Agrees-entries fuel next (h, omega arith)))

pub record SendableEntry3 (v : Entry3) : Type 0 where
  pub fileid : IsU64 v.fileid
  pub name : IsText 255 v.name
  pub cookie : IsU64 v.cookie

pub record SendableEntryplus3 (v : Entryplus3) : Type 0 where
  pub fileid : IsU64 v.fileid
  pub name : IsText 255 v.name
  pub cookie : IsU64 v.cookie
  pub name_handle : IsHandle v.name_handle
  pub name_attributes : PostOpAttrFits fresh v.name_attributes

pub record SendableReaddir3Resok (fuel : ℕ) (v : Readdir3Resok) : Type 0 where
  pub dir_attributes : PostOpAttrFits fresh v.dir_attributes
  pub cookieverf : IsU64 v.cookieverf
  pub reply : SendableList SendableEntry3 fuel v.reply.entries

abbrev pub without_entries : Readdir3Resok → Readdir3Resok
without_entries o = record o { reply = record { entries = []; eof = o.reply.eof } }

pub record SendableReaddirplus3Resok (fuel : ℕ) (v : Readdirplus3Resok) : Type 0 where
  pub dir_attributes : PostOpAttrFits fresh v.dir_attributes
  pub cookieverf : IsU64 v.cookieverf
  pub reply : SendableList SendableEntryplus3 fuel v.reply.entries

abbrev pub without_entries_plus : Readdirplus3Resok → Readdirplus3Resok
without_entries_plus o = record o { reply = record { entries = []; eof = o.reply.eof } }

module _ ⦃lib : XdrLib⦄ (laws : XdrLaws lib) where
  Agrees-entry3 :
      (v : Entry3)
      → SendableEntry3 v
      → Agrees laws (pack v) (xdr_entry3 encode v) (xdr_entry3 decode fresh) v (done v)
  unfolding xdr_entry3 entry3_codec
  Agrees-entry3 v h = Agrees-then _ _ _ (Agrees-u_hyper laws 0 v.fileid h.fileid) (
      Agrees-then _ _ _ (Agrees-text laws v.name 255 h.name.0 h.name.1 (omega arith) [])
        (Agrees-last _ _ (Agrees-u_hyper laws 0 v.cookie h.cookie)))

  Agrees-dirlist3 :
      (fuel : ℕ) (v : Dirlist3)
      → SendableList SendableEntry3 fuel v.entries
      → Agrees laws
          (Buffer.◌>>◌ (list_layout v.entries) (pack_bool v.eof))
          (xdr_dirlist3_internal fuel encode v)
          (xdr_dirlist3_internal fuel decode fresh)
          v
          (done (record { entries = []; eof = v.eof }))
  unfolding xdr_dirlist3_internal xdr_entry3_list xdr_entry_list ◌>>◌
  Agrees-dirlist3 fuel v h =
      Agrees-then _ _ _ (Agrees-entries laws xdr_entry3 Agrees-entry3 fuel v.entries h)
        (Agrees-last _ _ (Agrees-flag laws false v.eof))

  pub Agrees-readdir3_resok :
      (fuel : ℕ) (v : Readdir3Resok)
      → SendableReaddir3Resok fuel v
      → Agrees laws
          (readdir3_resok_layout lib.host v)
          (xdr_readdir3_resok fuel encode v)
          (xdr_readdir3_resok fuel decode fresh)
          v
          (done (without_entries v))
  unfolding xdr_readdir3_resok
  Agrees-readdir3_resok fuel v h =
      Agrees-then _ _ _ (Agrees-post_op_attr laws fresh v.dir_attributes h.dir_attributes) (
        Agrees-then _ _ _ (Agrees-raw_u64 laws 0 v.cookieverf h.cookieverf)
          (Agrees-last _ _ (Agrees-dirlist3 fuel v.reply h.reply)))

  Agrees-entryplus3 :
      (v : Entryplus3)
      → SendableEntryplus3 v
      → Agrees laws (pack v) (xdr_entryplus3 encode v) (xdr_entryplus3 decode fresh) v (done v)
  unfolding xdr_entryplus3 entryplus3_codec
  Agrees-entryplus3 v h = Agrees-then _ _ _ (Agrees-u_hyper laws 0 v.fileid h.fileid) (
      Agrees-then _ _ _ (Agrees-text laws v.name 255 h.name.0 h.name.1 (omega arith) []) (
        Agrees-then _ _ _ (Agrees-u_hyper laws 0 v.cookie h.cookie) (
          Agrees-then _ _ _ (Agrees-nfs_fh3 laws fresh v.name_handle h.name_handle) (
            Agrees-last _ _ (Agrees-post_op_attr laws fresh v.name_attributes h.name_attributes)))))

  Agrees-dirlistplus3 :
      (fuel : ℕ) (v : Dirlistplus3)
      → SendableList SendableEntryplus3 fuel v.entries
      → Agrees laws
          (Buffer.◌>>◌ (list_layout v.entries) (pack_bool v.eof))
          (xdr_dirlistplus3_internal fuel encode v)
          (xdr_dirlistplus3_internal fuel decode fresh)
          v
          (done (record { entries = []; eof = v.eof }))
  unfolding xdr_dirlistplus3_internal xdr_entryplus3_list xdr_entry_list ◌>>◌
  Agrees-dirlistplus3 fuel v h =
      Agrees-then _ _ _ (Agrees-entries laws xdr_entryplus3 Agrees-entryplus3 fuel v.entries h)
        (Agrees-last _ _ (Agrees-flag laws false v.eof))

  pub Agrees-readdirplus3_resok :
      (fuel : ℕ) (v : Readdirplus3Resok)
      → SendableReaddirplus3Resok fuel v
      → Agrees laws
          (readdirplus3_resok_layout lib.host v)
          (xdr_readdirplus3_resok fuel encode v)
          (xdr_readdirplus3_resok fuel decode fresh)
          v
          (done (without_entries_plus v))
  unfolding xdr_readdirplus3_resok
  Agrees-readdirplus3_resok fuel v h =
      Agrees-then _ _ _ (Agrees-post_op_attr laws fresh v.dir_attributes h.dir_attributes) (
        Agrees-then _ _ _ (Agrees-raw_u64 laws 0 v.cookieverf h.cookieverf)
          (Agrees-last _ _ (Agrees-dirlistplus3 fuel v.reply h.reply)))
