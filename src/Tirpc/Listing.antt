-- ===== src/Tirpc/Listing.antt =====
-- Directory listings: nfs3_rpc_tests/src/nfs3_xdr.cpp, lines 233-357, and the READDIR and
-- READDIRPLUS replies.
-- The loop over the entries is `while (true)`: an encoding one ends with the list, a decoding one
-- when the stream has a zero flag or no more words, and takes one unit of fuel a round.
use nfstest.Prelude.{ℕ, zero, suc, List, [], ◌∷◌, ◌==◌, if◌then◌else◌}
use nfstest.Xdr.Codec.{Fresh, fresh}
use nfstest.Nfs.Attributes.{nfs_fh3_fresh, post_op_attr_fresh}
use nfstest.Nfs.Reply.{Res}
use nfstest.Nfs.Directory.{
  Entry3, entry3_fresh, Dirlist3, Readdir3Resok, readdir3_resok_fresh, Entryplus3, entryplus3_fresh,
  Dirlistplus3, Readdirplus3Resok, readdirplus3_resok_fresh,
}
use nfstest.Tirpc.Stream.{
  Op, encode, decode, release, is_encode, is_decode, M, undefined, stuck, pure, halt, ◌>>=◌, ◌>>◌,
  XdrLib,
}
use nfstest.Tirpc.Idioms.{xdr_text, xdr_flag, xdr_raw_u64, xdr_res_else_false}
use nfstest.Tirpc.Attributes.{xdr_nfs_fh3, xdr_post_op_attr}

module _ ⦃lib : XdrLib⦄ where
  module _ {A : Type 0} ⦃f : Fresh A⦄ (xdr_entry : Op → A → M lib.Stream A) where
    unfoldable pub encode_entries : List A → M lib.Stream (Unit {0})
    -- `first` is null.
    encode_entries [] = do
      has_entry ← lib.xdr_u_int encode 0
      if has_entry == 0 then pure tt else halt undefined
    encode_entries (entry ∷ next) = do
      has_entry ← lib.xdr_u_int encode 1
      let rest = encode_entries next
      if has_entry == 0 then pure tt else do xdr_entry encode entry; rest

    -- Each entry is decoded into a new object that nothing then points to.
    unfoldable pub decode_entries : ℕ → M lib.Stream (Unit {0})
    decode_entries zero = halt stuck
    decode_entries (suc fuel) = do
      has_entry ← lib.xdr_u_int decode 0
      let rest = decode_entries fuel
      if has_entry == 0 then pure tt else do xdr_entry decode fresh; rest

    unfoldable pub xdr_entry_list : ℕ → Op → List A → M lib.Stream (Unit {0})
    unfolding encode_entries decode_entries
    xdr_entry_list fuel encode first = encode_entries first
    xdr_entry_list fuel decode first = decode_entries fuel
    xdr_entry_list fuel release first = do
      has_entry ← lib.xdr_u_int release 0
      if has_entry == 0 then pure tt else halt undefined

  unfoldable pub xdr_entry3 : Op → Entry3 → M lib.Stream Entry3
  xdr_entry3 op o = do
    fileid ← lib.xdr_u_hyper op o.fileid
    name ← xdr_text op o.name 255
    cookie ← lib.xdr_u_hyper op o.cookie
    pure (record { fileid = fileid; name = name; cookie = cookie })

  unfoldable pub xdr_entry3_list : ℕ → Op → List Entry3 → M lib.Stream (Unit {0})
  unfolding xdr_entry_list
  xdr_entry3_list = xdr_entry_list xdr_entry3

  unfoldable pub xdr_dirlist3_internal : ℕ → Op → Dirlist3 → M lib.Stream Dirlist3
  xdr_dirlist3_internal fuel op o = do
    xdr_entry3_list fuel op (if is_encode op then o.entries else [])
    eof ← xdr_flag op o.eof
    pure (record { entries = if is_decode op then [] else o.entries; eof = eof })

  unfoldable pub xdr_entryplus3 : Op → Entryplus3 → M lib.Stream Entryplus3
  xdr_entryplus3 op o = do
    fileid ← lib.xdr_u_hyper op o.fileid
    name ← xdr_text op o.name 255
    cookie ← lib.xdr_u_hyper op o.cookie
    name_handle ← xdr_nfs_fh3 op o.name_handle
    name_attributes ← xdr_post_op_attr op o.name_attributes
    pure (record {
      fileid = fileid;
      name = name;
      cookie = cookie;
      name_handle = name_handle;
      name_attributes = name_attributes;
    })

  unfoldable pub xdr_entryplus3_list : ℕ → Op → List Entryplus3 → M lib.Stream (Unit {0})
  unfolding xdr_entry_list
  xdr_entryplus3_list = xdr_entry_list xdr_entryplus3

  unfoldable pub xdr_dirlistplus3_internal : ℕ → Op → Dirlistplus3 → M lib.Stream Dirlistplus3
  xdr_dirlistplus3_internal fuel op o = do
    xdr_entryplus3_list fuel op (if is_encode op then o.entries else [])
    eof ← xdr_flag op o.eof
    pure (record { entries = if is_decode op then [] else o.entries; eof = eof })

  unfoldable pub xdr_readdir3_resok : ℕ → Op → Readdir3Resok → M lib.Stream Readdir3Resok
  xdr_readdir3_resok fuel op o = do
    dir_attributes ← xdr_post_op_attr op o.dir_attributes
    cookieverf ← xdr_raw_u64 op o.cookieverf
    reply ← xdr_dirlist3_internal fuel op o.reply
    pure (record { dir_attributes = dir_attributes; cookieverf = cookieverf; reply = reply })

  unfoldable pub xdr_readdir3_res : ℕ → Op → Res Readdir3Resok → M lib.Stream (Res Readdir3Resok)
  unfolding xdr_res_else_false
  xdr_readdir3_res fuel = xdr_res_else_false (xdr_readdir3_resok fuel)

  unfoldable pub xdr_readdirplus3_resok :
      ℕ → Op → Readdirplus3Resok → M lib.Stream Readdirplus3Resok
  xdr_readdirplus3_resok fuel op o = do
    dir_attributes ← xdr_post_op_attr op o.dir_attributes
    cookieverf ← xdr_raw_u64 op o.cookieverf
    reply ← xdr_dirlistplus3_internal fuel op o.reply
    pure (record { dir_attributes = dir_attributes; cookieverf = cookieverf; reply = reply })

  unfoldable pub xdr_readdirplus3_res :
      ℕ → Op → Res Readdirplus3Resok → M lib.Stream (Res Readdirplus3Resok)
  unfolding xdr_res_else_false
  xdr_readdirplus3_res fuel = xdr_res_else_false (xdr_readdirplus3_resok fuel)
