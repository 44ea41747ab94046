-- ===== src/Nfs/Runs.antt =====
-- The messages of nfs3_rpc_tests/include/nfs3/nfs3_types.hpp at concrete values.
use nfstest.Prelude.{◌≡◌, refl, true, false, [], ◌∷◌, some, none, arith, length, replicate}
use nfstest.Xdr.Word.{big, little}
use nfstest.Xdr.Buffer.{XdrBuffer, ok, empty_buffer}
use nfstest.Xdr.Codec.{pack, unpack, fresh}
use nfstest.Xdr.Wire.{RoundTrip}
use nfstest.Xdr.Safety.{Sound}
use nfstest.Nfs.Reply.{res_codec, res_fresh}
use nfstest.Nfs.Attributes.{nfs_fh3_fresh, post_op_attr_fresh}
use nfstest.Nfs.SetAttributes.{Setattr3Args, sattr3_fresh, setattr3_args_fresh}
use nfstest.Nfs.SetAttributes.RoundTrip.{Setattr3ArgsFits}
use nfstest.Nfs.Directory.{readdir3_resok_fresh, dirlist3_fresh}
use nfstest.Nfs.FsInfo.{
  Fsinfo3ResokProperty, fsinfo3_resok_property_codec, fsinfo3_resok_property_fresh,
}
use nfstest.Nfs.FsInfo.Properties.{shifted, fsinfo3_property_shift}
use nfstest.Nfs.Procedure.{Reply, setattr, readdir, args_codec, reply_codec}
use nfstest.Nfs.Procedure.RoundTrip.{args-RoundTrip, reply-RoundTrip, ResokFits}
use nfstest.Nfs.Reply.RoundTrip.{ResFits}
use nfstest.Nfs.Procedure.Safety.{args-Sound, reply-Sound}

-- The mode and the modification time of a file are set, the rest is left alone.
abbrev set_mode : Setattr3Args
set_mode = record {
  object = record { data_bytes = 1 ∷ 2 ∷ 3 ∷ 4 ∷ 5 ∷ [] };
  new_attributes = record {
    mode = some 420;
    uid = none;
    gid = none;
    size = none;
    atime = none;
    mtime = some (record { seconds = 1000; nseconds = 5 });
  };
  guard = none;
}

set_mode_fits : Setattr3ArgsFits fresh set_mode
set_mode_fits = record {
  object = omega arith;
  new_attributes = record {
    mode = omega arith;
    uid = refl;
    gid = refl;
    size = refl;
    atime = refl;
    mtime = record { seconds = omega arith; nseconds = omega arith };
  };
  guard = refl;
}

args-RoundTrip_example :
    RoundTrip
      ((args_codec setattr).serialize set_mode)
      ((args_codec setattr).deserialize fresh)
      set_mode
args-RoundTrip_example = args-RoundTrip setattr fresh set_mode set_mode_fits

-- A directory of two files.
abbrev listing : Reply readdir
listing = record {
  status = 0;
  resok = some (record {
    dir_attributes = fresh;
    cookieverf = 7;
    reply = record {
      entries =
          record { fileid = 10; name = b'a' ∷ []; cookie = 1 }
          ∷ record { fileid = 11; name = b'b' ∷ b'c' ∷ []; cookie = 2 }
          ∷ [];
      eof = true;
    };
  });
}

listing_fits : ResFits (ResokFits readdir) fresh listing
listing_fits = (
  omega arith,
  (
    _,
    refl,
    record {
      dir_attributes = refl;
      cookieverf = omega arith;
      reply = (
        record { fileid = omega arith; name = omega arith; cookie = omega arith },
        (record { fileid = omega arith; name = omega arith; cookie = omega arith }, tt),
      );
    },
  ),
)

reply-RoundTrip_example :
    RoundTrip
      ((reply_codec readdir).serialize listing)
      ((reply_codec readdir).deserialize fresh)
      listing
reply-RoundTrip_example = reply-RoundTrip readdir fresh listing listing_fits

-- A reply that ends within the word that should follow its status.
abbrev cut_reply : XdrBuffer
cut_reply = record { buffer = replicate 6 0; pos = 0 }

reply-Sound_example : Sound cut_reply ((reply_codec readdir).deserialize fresh little cut_reply)
reply-Sound_example = reply-Sound readdir fresh little cut_reply (omega arith)

args-Sound_example : Sound cut_reply ((args_codec setattr).deserialize fresh big cut_reply)
args-Sound_example = args-Sound setattr fresh big cut_reply (omega arith)

abbrev limits : Fsinfo3ResokProperty
limits = record {
  linkmax = 32;
  name_max = 255;
  no_trunc = false;
  chown_restricted = true;
  case_insensitive = false;
  case_preserving = true;
}

fsinfo3_property_shift_example :
    (b : XdrBuffer) × (pack limits little empty_buffer ≡ ok tt b)
    × (length b.buffer ≡ 24)
    × (unpack fresh big b ≡ ok (shifted fresh limits) (record b { pos = 20 }))
fsinfo3_property_shift_example =
    fsinfo3_property_shift little big fresh limits (omega arith) (omega arith)
