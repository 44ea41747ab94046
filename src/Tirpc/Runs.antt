-- ===== src/Tirpc/Runs.antt =====
-- The witnesses of the TI-RPC build, on streams in memory.
use nfstest.Prelude.{ℕ, ◌≡◌, refl, true, List, [], ◌∷◌, ◌++◌, some, length, arith}
use nfstest.Xdr.Word.{
  big, little, network_bytes32, network_bytes64, bytes_of32, bytes_of64, host_to_network32,
  host_to_network64,
}
use nfstest.Xdr.Buffer.{
  XdrBuffer, ok, empty_buffer, pack_u32, pack_u64, pack_bool, pack_string, pack_bytes, insert,
  padding_of, pad_to_4_bytes, pure,
}
use nfstest.Xdr.Codec.{fresh}
use nfstest.Xdr.Wire.{between}
use nfstest.Nfs.Attributes.{NfsFh3, nfs_fh3_codec, post_op_attr_codec, fattr3_codec}
use nfstest.Nfs.Directory.{entry3_codec, readdir3_resok_fresh}
use nfstest.Nfs.Chain.{pack_chain}
use nfstest.Nfs.Reply.{res_fresh}
use nfstest.Nfs.Attributes.{post_op_attr_fresh}
use nfstest.Nfs.Procedure.{Procedure, Args, Reply}
use nfstest.Nfs.Transfer.{write3_args_codec}
use nfstest.Tirpc.Stream
use nfstest.Tirpc.Stream.{encode, decode, done}
use nfstest.Tirpc.Layout.{args_layout, reply_layout}
use nfstest.Tirpc.Procedure.{xdr_args, xdr_reply}
use nfstest.Tirpc.Agree.AllArgs.{args_same_bytes, read_args}
use nfstest.Tirpc.Agree.AllReplies.{reply_same_bytes, read_reply}
use nfstest.Tirpc.Memory.{memory, memory_laws}

abbrev handle : NfsFh3
handle = record { data_bytes = 7 ∷ [] }

-- A stream that has read all of its bytes.
abbrev behind : List ℕ → XdrBuffer
behind bytes = record { buffer = bytes; pos = length bytes }

abbrev sent : List ℕ → XdrBuffer
sent bytes = record { buffer = bytes; pos = 0 }

abbrev no_data : Args Procedure.write
no_data = record { file = handle; offset = 0; count = 0; stable = 0; data_bytes = [] }

abbrev two_bytes : Args Procedure.write
two_bytes = record { file = handle; offset = 512; count = 2; stable = 2; data_bytes = 8 ∷ 9 ∷ [] }

abbrev two_bytes_sent : List ℕ
two_bytes_sent =
    network_bytes32 1
    ++ (7 ∷ 0 ∷ 0 ∷ 0 ∷ [])
    ++ (network_bytes64 512
        ++ (network_bytes32 2
            ++ (network_bytes32 2 ++ (network_bytes32 2 ++ (8 ∷ 9 ∷ 0 ∷ 0 ∷ [])))))

two_bytes_packed :
    args_layout little Procedure.write two_bytes big empty_buffer ≡ ok tt (sent two_bytes_sent)
unfolding write3_args_codec nfs_fh3_codec pack_u32 pack_u64 pack_bytes insert bytes_of32
    host_to_network32 padding_of bytes_of64 host_to_network64
two_bytes_packed = refl

args_same_bytes_example :
    (xdr_args Procedure.write encode two_bytes empty_buffer ≡ done two_bytes (sent two_bytes_sent))
    × (xdr_args Procedure.write decode no_data (sent two_bytes_sent)
        ≡ read_args Procedure.write two_bytes (behind two_bytes_sent))
unfolding between
args_same_bytes_example =
    args_same_bytes memory_laws Procedure.write no_data two_bytes
      (
        record {
          file = omega arith;
          offset = omega arith;
          count = omega arith;
          stable = omega arith;
          data_bytes = omega arith;
        },
        refl,
      )
      big (sent two_bytes_sent) two_bytes_packed empty_buffer (sent two_bytes_sent) refl
      (sent two_bytes_sent) (behind two_bytes_sent) ([], [], refl, refl)

-- A listing of one entry; its verifier 3 is in the byte order of the little-endian host.
abbrev listing : Reply Procedure.readdir
listing = record {
  status = 0;
  resok = some (record {
    dir_attributes = fresh;
    cookieverf = 3;
    reply = record {
      entries = record { fileid = 10; name = b'a' ∷ []; cookie = 1 } ∷ [];
      eof = true;
    };
  });
}

abbrev listing_sent : List ℕ
listing_sent =
    network_bytes32 0
    ++ (network_bytes32 0
        ++ ((3 ∷ 0 ∷ 0 ∷ 0 ∷ 0 ∷ 0 ∷ 0 ∷ 0 ∷ [])
            ++ (network_bytes32 1
                ++ (network_bytes64 10
                    ++ (network_bytes32 1
                        ++ ((b'a' ∷ 0 ∷ 0 ∷ 0 ∷ [])
                            ++ (network_bytes64 1 ++ (network_bytes32 0 ++ network_bytes32 1))))))))

listing_packed :
    reply_layout little Procedure.readdir listing big empty_buffer ≡ ok tt (sent listing_sent)
unfolding entry3_codec post_op_attr_codec pack_chain pack_u32 pack_u64 pack_string pack_bool insert
    pad_to_4_bytes bytes_of32 host_to_network32 padding_of bytes_of64 host_to_network64 pure
listing_packed = refl

reply_same_bytes_example :
    (xdr_reply Procedure.readdir 5 encode listing empty_buffer ≡ done listing (sent listing_sent))
    × (xdr_reply Procedure.readdir 5 decode fresh (sent listing_sent)
        ≡ done (read_reply Procedure.readdir listing) (behind listing_sent))
unfolding between
reply_same_bytes_example =
    reply_same_bytes memory_laws Procedure.readdir 5 fresh listing
      (
        omega arith,
        (
          _,
          refl,
          record {
            dir_attributes = refl;
            cookieverf = omega arith;
            reply = (
              (
                record {
                  fileid = omega arith;
                  name = ((refl, tt), omega arith);
                  cookie = omega arith;
                },
                tt,
              ),
              omega arith,
            );
          },
        ),
      )
      big (sent listing_sent) listing_packed empty_buffer (sent listing_sent) refl
      (sent listing_sent) (behind listing_sent) ([], [], refl, refl)

-- A link named a to a file.
abbrev to_link : Args Procedure.link
to_link = record {
  file = handle;
  link_dir = record { data_bytes = 1 ∷ 2 ∷ [] };
  link_name = b'a' ∷ [];
}
