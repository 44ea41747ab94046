-- ===== src/NfsC/Packed.antt =====
-- What nfs3_rpc_tests_c/src/nfs3_xdr.c packs of attributes, beside the structures of
-- nfs3_rpc_tests/include/nfs3/nfs3_types.hpp.
use nfstest.Prelude.{
  ℕ, ◌+◌, ◌≤◌, ◌^◌, Bool, true, false, List, [], ◌++◌, length, length-append, arith,
}
use nfstest.Xdr.Word.{Endianness}
use nfstest.Xdr.Buffer
use nfstest.Xdr.Buffer.{pack_u32, pack_u64, pack_bool}
use nfstest.Xdr.Codec
use nfstest.Xdr.Codec.{pack}
use nfstest.Xdr.Wire.{IsAligned, Packs, Packs->>, Packs-pure}
use nfstest.Xdr.Words.{pack_u32-Packs, pack_u64-Packs, pack_bool-Packs}
use nfstest.Nfs.Attributes.{
  Nfstime3, Specdata3, Fattr3, PostOpAttr, WccAttr, PreOpAttr, WccData, nfstime3_codec,
  specdata3_codec, fattr3_codec, post_op_attr_codec, wcc_attr_codec, pre_op_attr_codec,
  wcc_data_codec,
}
use nfstest.XdrC.Growth.{XdrBuf, Heap, M, ◌>>◌}
use nfstest.XdrC.Capacity.{IsValid, Grants}
use nfstest.XdrC.Codec.{xdr_pack_uint32, xdr_pack_uint64, xdr_pack_bool}
use nfstest.XdrC.Packing.{
  Appends, Appends->>, Appends-pure, uint32-Appends, uint64-Appends, bool-Appends,
}
use nfstest.XdrC.Agree.{PackedAlike, same_bytes, view}
use nfstest.NfsC.Attributes.{
  when, xdr_pack_nfstime3, xdr_pack_specdata3, xdr_pack_fattr3, xdr_pack_post_op_attr,
  xdr_pack_wcc_attr, xdr_pack_pre_op_attr, xdr_pack_wcc_data,
}

-- Behind whole units, `w` appends what the method `v` of the C++ program appends, `most` bytes at
-- most.
pub record Alike (w : M (Unit {0})) (v : Buffer.M (Unit {0})) (most : ℕ) : Type 0 where
  pub bytes : List ℕ
  pub appends : (front : List ℕ) → IsAligned front → Appends front w bytes
  pub packs : Packs v bytes
  pub size : length bytes ≤ most

IsAligned-after :
    (front bytes : List ℕ) → IsAligned front → IsAligned bytes → IsAligned (front ++ bytes)
IsAligned-after front bytes h k = omega (arith, length-append front bytes)

pub Alike->> :
    {w x : M (Unit {0})} {v u : Buffer.M (Unit {0})} {n m : ℕ}
    → Alike w v n
    → Alike x u m
    → Alike (w >> x) (Buffer.◌>>◌ v u) (n + m)
Alike->> p q = record {
  bytes = p.bytes ++ q.bytes;
  appends = λ front h.
      Appends->> front p.bytes q.bytes (p.appends front h)
        (q.appends (front ++ p.bytes) (IsAligned-after front p.bytes h p.packs.aligned));
  packs = Packs->> p.packs q.packs;
  size = omega (arith, length-append p.bytes q.bytes, p.size, q.size);
}

pub Alike-u32 : (val : ℕ) → Alike (xdr_pack_uint32 val) (pack_u32 val) 4
Alike-u32 val = record {
  bytes = _;
  appends = λ front h. uint32-Appends front val;
  packs = pack_u32-Packs val;
  size = omega arith;
}

pub Alike-u64 : (val : ℕ) → Alike (xdr_pack_uint64 val) (pack_u64 val) 8
Alike-u64 val = record {
  bytes = _;
  appends = λ front h. uint64-Appends front val;
  packs = pack_u64-Packs val;
  size = omega arith;
}

Alike-bool : (val : Bool) → Alike (xdr_pack_bool val) (pack_bool val) 4
Alike-bool val = record {
  bytes = _;
  appends = λ front h. bool-Appends front val;
  packs = pack_bool-Packs val;
  size = omega arith;
}

Alike-when :
    {w : M (Unit {0})} {v : Buffer.M (Unit {0})} {n : ℕ} (flag : Bool)
    → Alike w v n
    → Alike (when flag w) (Codec.when flag v) n
Alike-when true p = p
Alike-when false p = record {
  bytes = [];
  appends = λ front h. Appends-pure front;
  packs = Packs-pure;
  size = omega arith;
}

Alike-nfstime3 : (t : Nfstime3) → Alike (xdr_pack_nfstime3 t) (pack t) 8
unfolding xdr_pack_nfstime3 nfstime3_codec
Alike-nfstime3 t = Alike->> (Alike-u32 t.seconds) (Alike-u32 t.nseconds)

Alike-specdata3 : (s : Specdata3) → Alike (xdr_pack_specdata3 s) (pack s) 8
unfolding xdr_pack_specdata3 specdata3_codec
Alike-specdata3 s = Alike->> (Alike-u32 s.specdata1) (Alike-u32 s.specdata2)

Alike-fattr3 : (attr : Fattr3) → Alike (xdr_pack_fattr3 attr) (pack attr) 84
unfolding xdr_pack_fattr3 fattr3_codec
Alike-fattr3 attr = Alike->> (Alike-u32 attr.type_) (
    Alike->> (Alike-u32 attr.mode) (
      Alike->> (Alike-u32 attr.nlink) (
        Alike->> (Alike-u32 attr.uid) (
          Alike->> (Alike-u32 attr.gid) (
            Alike->> (Alike-u64 attr.size) (
              Alike->> (Alike-u64 attr.used) (
                Alike->> (Alike-specdata3 attr.rdev) (
                  Alike->> (Alike-u64 attr.fsid) (
                    Alike->> (Alike-u64 attr.fileid) (
                      Alike->> (Alike-nfstime3 attr.atime)
                        (Alike->> (Alike-nfstime3 attr.mtime) (Alike-nfstime3 attr.ctime))))))))))))

Alike-post_op_attr : (a : PostOpAttr) → Alike (xdr_pack_post_op_attr a) (pack a) 88
unfolding xdr_pack_post_op_attr post_op_attr_codec
Alike-post_op_attr a =
    Alike->> (Alike-bool a.follow) (Alike-when a.follow (Alike-fattr3 a.attributes))

Alike-wcc_attr : (a : WccAttr) → Alike (xdr_pack_wcc_attr a) (pack a) 24
unfolding xdr_pack_wcc_attr wcc_attr_codec
Alike-wcc_attr a =
    Alike->> (Alike-u64 a.size) (Alike->> (Alike-nfstime3 a.mtime) (Alike-nfstime3 a.ctime))

Alike-pre_op_attr : (a : PreOpAttr) → Alike (xdr_pack_pre_op_attr a) (pack a) 28
unfolding xdr_pack_pre_op_attr pre_op_attr_codec
Alike-pre_op_attr a =
    Alike->> (Alike-bool a.check) (Alike-when a.check (Alike-wcc_attr a.attributes))

Alike-wcc_data : (d : WccData) → Alike (xdr_pack_wcc_data d) (pack d) 116
unfolding xdr_pack_wcc_data wcc_data_codec
Alike-wcc_data d = Alike->> (Alike-pre_op_attr d.before) (Alike-post_op_attr d.after)

pub packed_alike :
    (e : Endianness) (h : Heap) (b : XdrBuf) {w : M (Unit {0})} {v : Buffer.M (Unit {0})} {n : ℕ}
    → Alike w v n
    → IsValid b
    → Grants h
    → IsAligned b.contents
    → length b.contents + n ≤ 2 ^ 63
    → PackedAlike (w e h b) (v e (view b))
packed_alike e h b p valid g aligned small =
    same_bytes e h b p.bytes _ _ valid g (omega (arith, p.size)) (p.appends b.contents aligned)
      (p.packs.appends e (view b) aligned)

-- Where no request for memory is refused, the C suite packs the attributes of a file, optional ones,
-- and weak cache consistency data, as the C++ program serializes them, on hosts of either byte
-- order, behind whole units and with 116 bytes left below 2^63.
pub attributes_same_bytes :
    (e : Endianness) (h : Heap) (b : XdrBuf) (attr : Fattr3) (a : PostOpAttr) (d : WccData)
    → IsValid b
    → Grants h
    → IsAligned b.contents
    → length b.contents + 116 ≤ 2 ^ 63
    → PackedAlike (xdr_pack_fattr3 attr e h b) (pack attr e (view b))
      × PackedAlike (xdr_pack_post_op_attr a e h b) (pack a e (view b))
      × PackedAlike (xdr_pack_wcc_data d e h b) (pack d e (view b))
attributes_same_bytes e h b attr a d valid g aligned small = (
  packed_alike e h b (Alike-fattr3 attr) valid g aligned (omega arith),
  packed_alike e h b (Alike-post_op_attr a) valid g aligned (omega arith),
  packed_alike e h b (Alike-wcc_data d) valid g aligned small,
)
