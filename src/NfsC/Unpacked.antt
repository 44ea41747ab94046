-- ===== src/NfsC/Unpacked.antt =====
-- What nfs3_rpc_tests_c/src/nfs3_xdr.c unpacks of attributes, beside the structures of
-- nfs3_rpc_tests/include/nfs3/nfs3_types.hpp.
use nfstest.Xdr.Word.{Endianness}
use nfstest.Xdr.Codec.{unpack}
use nfstest.Nfs.Attributes.{
  Nfstime3, Specdata3, Fattr3, PostOpAttr, WccAttr, PreOpAttr, WccData, nfstime3_codec,
  specdata3_codec, fattr3_codec, post_op_attr_codec, wcc_attr_codec, pre_op_attr_codec,
  wcc_data_codec,
}
use nfstest.XdrC.Growth.{XdrBuf, Heap}
use nfstest.XdrC.Capacity.{Grants}
use nfstest.XdrC.Agree.{view}
use nfstest.XdrC.Reading.{Readable, SameReader-uint32, SameReader-uint64}
use nfstest.XdrC.Unpacking.{SameReader-bool}
use nfstest.NfsC.Attributes.{
  xdr_unpack_nfstime3, xdr_unpack_specdata3, xdr_unpack_fattr3, xdr_unpack_post_op_attr,
  xdr_unpack_wcc_attr, xdr_unpack_pre_op_attr, xdr_unpack_wcc_data,
}
use nfstest.NfsC.Taken.{Taken, Takes, Takes-into, Takes-new, Takes->>=, Takes-pure, Takes-if}

Takes-nfstime3 : (t : Nfstime3) → Takes (xdr_unpack_nfstime3 t) (unpack t)
unfolding xdr_unpack_nfstime3 nfstime3_codec
Takes-nfstime3 t =
    Takes->>= (Takes-into t.seconds SameReader-uint32)
      λ seconds. Takes->>= (Takes-into t.nseconds SameReader-uint32) λ nseconds. Takes-pure _

Takes-specdata3 : (s : Specdata3) → Takes (xdr_unpack_specdata3 s) (unpack s)
unfolding xdr_unpack_specdata3 specdata3_codec
Takes-specdata3 s =
    Takes->>= (Takes-into s.specdata1 SameReader-uint32)
      λ specdata1. Takes->>= (Takes-into s.specdata2 SameReader-uint32) λ specdata2. Takes-pure _

Takes-fattr3 : (attr : Fattr3) → Takes (xdr_unpack_fattr3 attr) (unpack attr)
unfolding xdr_unpack_fattr3 fattr3_codec
Takes-fattr3 attr = Takes->>= (Takes-new SameReader-uint32) λ type_val.
    Takes->>= (Takes-into attr.mode SameReader-uint32) λ mode.
      Takes->>= (Takes-into attr.nlink SameReader-uint32) λ nlink.
        Takes->>= (Takes-into attr.uid SameReader-uint32) λ uid.
          Takes->>= (Takes-into attr.gid SameReader-uint32) λ gid.
            Takes->>= (Takes-into attr.size SameReader-uint64) λ size.
              Takes->>= (Takes-into attr.used SameReader-uint64) λ used.
                Takes->>= (Takes-specdata3 attr.rdev) λ rdev.
                  Takes->>= (Takes-into attr.fsid SameReader-uint64) λ fsid.
                    Takes->>= (Takes-into attr.fileid SameReader-uint64) λ fileid.
                      Takes->>= (Takes-nfstime3 attr.atime) λ atime.
                        Takes->>= (Takes-nfstime3 attr.mtime)
                          λ mtime. Takes->>= (Takes-nfstime3 attr.ctime) λ ctime. Takes-pure _

Takes-post_op_attr : (a : PostOpAttr) → Takes (xdr_unpack_post_op_attr a) (unpack a)
unfolding xdr_unpack_post_op_attr post_op_attr_codec
Takes-post_op_attr a = Takes->>= (Takes-into a.follow SameReader-bool) λ follow.
    Takes-if follow (Takes->>= (Takes-fattr3 a.attributes) λ attributes. Takes-pure _)
      (Takes-pure _)

Takes-wcc_attr : (a : WccAttr) → Takes (xdr_unpack_wcc_attr a) (unpack a)
unfolding xdr_unpack_wcc_attr wcc_attr_codec
Takes-wcc_attr a = Takes->>= (Takes-into a.size SameReader-uint64) λ size.
    Takes->>= (Takes-nfstime3 a.mtime)
      λ mtime. Takes->>= (Takes-nfstime3 a.ctime) λ ctime. Takes-pure _

Takes-pre_op_attr : (a : PreOpAttr) → Takes (xdr_unpack_pre_op_attr a) (unpack a)
unfolding xdr_unpack_pre_op_attr pre_op_attr_codec
Takes-pre_op_attr a = Takes->>= (Takes-into a.check SameReader-bool) λ check.
    Takes-if check (Takes->>= (Takes-wcc_attr a.attributes) λ attributes. Takes-pure _)
      (Takes-pure _)

Takes-wcc_data : (d : WccData) → Takes (xdr_unpack_wcc_data d) (unpack d)
unfolding xdr_unpack_wcc_data wcc_data_codec
Takes-wcc_data d =
    Takes->>= (Takes-pre_op_attr d.before)
      λ before. Takes->>= (Takes-post_op_attr d.after) λ after. Takes-pure _

-- Where no request for memory is refused, on a buffer of fewer than 2^32 - 1 bytes: attributes,
-- optional ones and weak cache consistency data that the C++ program deserializes are unpacked by
-- the C suite to the same object, which leaves its position at the same place and the rest of its
-- buffer alone.
pub attributes_read_alike :
    (e : Endianness) (h : Heap) (b : XdrBuf) (attr : Fattr3) (a : PostOpAttr) (d : WccData)
    → Readable b
    → Grants h
    → Taken b (unpack attr e (view b)) (xdr_unpack_fattr3 attr e h b)
      × Taken b (unpack a e (view b)) (xdr_unpack_post_op_attr a e h b)
      × Taken b (unpack d e (view b)) (xdr_unpack_wcc_data d e h b)
attributes_read_alike e h b attr a d readable g = (
  (Takes-fattr3 attr).at e h b readable g,
  (Takes-post_op_attr a).at e h b readable g,
  (Takes-wcc_data d).at e h b readable g,
)
