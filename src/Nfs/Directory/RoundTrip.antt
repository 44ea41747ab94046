-- ===== src/Nfs/Directory/RoundTrip.antt =====
-- The READDIR and READDIRPLUS procedures: read back as written.
use nfstest.Xdr.Word.{IsU32, IsU64}
use nfstest.Xdr.Codec.{pack, unpack, fresh}
use nfstest.Xdr.Wire.{Wire, Wire-then, Wire-last}
use nfstest.Xdr.Words.{Wire-u32, Wire-u64, Wire-bool}
use nfstest.Xdr.Opaque.{IsShort, Wire-string}
use nfstest.Nfs.Chain.{is_set}
use nfstest.Nfs.Chain.RoundTrip.{ChainFits, Wire-chain}
use nfstest.Nfs.Attributes.RoundTrip.{Wire-nfs_fh3, NfsFh3Fits, Wire-post_op_attr, PostOpAttrFits}
use nfstest.Nfs.Directory.{
  Entry3, entry3_codec, entry3_fresh, Dirlist3, dirlist3_codec, dirlist3_fresh, Readdir3Args,
  readdir3_args_codec, readdir3_args_fresh, Readdir3Resok, readdir3_resok_codec,
  readdir3_resok_fresh, Entryplus3, entryplus3_codec, entryplus3_fresh, Dirlistplus3,
  dirlistplus3_codec, dirlistplus3_fresh, Readdirplus3Args, readdirplus3_args_codec,
  readdirplus3_args_fresh, Readdirplus3Resok, readdirplus3_resok_codec, readdirplus3_resok_fresh,
}

pub record Entry3Fits (v : Entry3) : Type 0 where
  pub fileid : IsU64 v.fileid
  pub name : IsShort v.name
  pub cookie : IsU64 v.cookie

pub Wire-entry3 : (old v : Entry3) → Entry3Fits v → Wire (pack v) (unpack old) v
unfolding entry3_codec
Wire-entry3 old v h =
    Wire-then _ (Wire-u64 v.fileid h.fileid)
      (Wire-then _ (Wire-string v.name h.name) (Wire-last _ (Wire-u64 v.cookie h.cookie)))

abbrev pub Dirlist3Fits : Dirlist3 → Dirlist3 → Type 0
Dirlist3Fits old v = ChainFits (λ (entry : Entry3). Entry3Fits entry) old.entries v.entries

pub Wire-dirlist3 : (old v : Dirlist3) → Dirlist3Fits old v → Wire (pack v) (unpack old) v
unfolding dirlist3_codec
Wire-dirlist3 old v h = Wire-then _ (Wire-bool (is_set v.entries)) (
    Wire-then _ (Wire-chain (Wire-entry3 fresh) old.entries v.entries h)
      (Wire-last _ (Wire-bool v.eof)))

pub record Readdir3ArgsFits (v : Readdir3Args) : Type 0 where
  pub dir : NfsFh3Fits v.dir
  pub cookie : IsU64 v.cookie
  pub cookieverf : IsU64 v.cookieverf
  pub count : IsU32 v.count

pub Wire-readdir3_args : (old v : Readdir3Args) → Readdir3ArgsFits v → Wire (pack v) (unpack old) v
unfolding readdir3_args_codec
Wire-readdir3_args old v h = Wire-then _ (Wire-nfs_fh3 old.dir v.dir h.dir) (
    Wire-then _ (Wire-u64 v.cookie h.cookie)
      (Wire-then _ (Wire-u64 v.cookieverf h.cookieverf) (Wire-last _ (Wire-u32 v.count h.count))))

pub record Readdir3ResokFits (old v : Readdir3Resok) : Type 0 where
  pub dir_attributes : PostOpAttrFits old.dir_attributes v.dir_attributes
  pub cookieverf : IsU64 v.cookieverf
  pub reply : Dirlist3Fits old.reply v.reply

pub Wire-readdir3_resok :
    (old v : Readdir3Resok) → Readdir3ResokFits old v → Wire (pack v) (unpack old) v
unfolding readdir3_resok_codec
Wire-readdir3_resok old v h =
    Wire-then _ (Wire-post_op_attr old.dir_attributes v.dir_attributes h.dir_attributes) (
      Wire-then _ (Wire-u64 v.cookieverf h.cookieverf)
        (Wire-last _ (Wire-dirlist3 old.reply v.reply h.reply)))

pub record Entryplus3Fits (old v : Entryplus3) : Type 0 where
  pub fileid : IsU64 v.fileid
  pub name : IsShort v.name
  pub cookie : IsU64 v.cookie
  pub name_handle : NfsFh3Fits v.name_handle
  pub name_attributes : PostOpAttrFits old.name_attributes v.name_attributes

pub Wire-entryplus3 : (old v : Entryplus3) → Entryplus3Fits old v → Wire (pack v) (unpack old) v
unfolding entryplus3_codec
Wire-entryplus3 old v h = Wire-then _ (Wire-u64 v.fileid h.fileid) (
    Wire-then _ (Wire-string v.name h.name) (
      Wire-then _ (Wire-u64 v.cookie h.cookie) (
        Wire-then _ (Wire-nfs_fh3 old.name_handle v.name_handle h.name_handle) (
          Wire-last _
            (Wire-post_op_attr old.name_attributes v.name_attributes h.name_attributes)))))

abbrev pub Dirlistplus3Fits : Dirlistplus3 → Dirlistplus3 → Type 0
Dirlistplus3Fits old v =
    ChainFits (λ (entry : Entryplus3). Entryplus3Fits fresh entry) old.entries v.entries

pub Wire-dirlistplus3 :
    (old v : Dirlistplus3) → Dirlistplus3Fits old v → Wire (pack v) (unpack old) v
unfolding dirlistplus3_codec
Wire-dirlistplus3 old v h = Wire-then _ (Wire-bool (is_set v.entries)) (
    Wire-then _ (Wire-chain (Wire-entryplus3 fresh) old.entries v.entries h)
      (Wire-last _ (Wire-bool v.eof)))

pub record Readdirplus3ArgsFits (v : Readdirplus3Args) : Type 0 where
  pub dir : NfsFh3Fits v.dir
  pub cookie : IsU64 v.cookie
  pub cookieverf : IsU64 v.cookieverf
  pub dircount : IsU32 v.dircount
  pub maxcount : IsU32 v.maxcount

pub Wire-readdirplus3_args :
    (old v : Readdirplus3Args) → Readdirplus3ArgsFits v → Wire (pack v) (unpack old) v
unfolding readdirplus3_args_codec
Wire-readdirplus3_args old v h = Wire-then _ (Wire-nfs_fh3 old.dir v.dir h.dir) (
    Wire-then _ (Wire-u64 v.cookie h.cookie) (
      Wire-then _ (Wire-u64 v.cookieverf h.cookieverf) (
        Wire-then _ (Wire-u32 v.dircount h.dircount)
          (Wire-last _ (Wire-u32 v.maxcount h.maxcount)))))

pub record Readdirplus3ResokFits (old v : Readdirplus3Resok) : Type 0 where
  pub dir_attributes : PostOpAttrFits old.dir_attributes v.dir_attributes
  pub cookieverf : IsU64 v.cookieverf
  pub reply : Dirlistplus3Fits old.reply v.reply

pub Wire-readdirplus3_resok :
    (old v : Readdirplus3Resok) → Readdirplus3ResokFits old v → Wire (pack v) (unpack old) v
unfolding readdirplus3_resok_codec
Wire-readdirplus3_resok old v h =
    Wire-then _ (Wire-post_op_attr old.dir_attributes v.dir_attributes h.dir_attributes) (
      Wire-then _ (Wire-u64 v.cookieverf h.cookieverf)
        (Wire-last _ (Wire-dirlistplus3 old.reply v.reply h.reply)))
