-- ===== src/Nfs/Directory/Safety.antt =====
-- The READDIR and READDIRPLUS procedures: reading stays inside the buffer.
use nfstest.Xdr.Codec.{unpack}
use nfstest.Xdr.Safety.{Safe-bool, Safe-if, Safe-pure, Safe->>=, Safe, safe_rules}
use nfstest.Nfs.Chain.Safety.{Safe-entries}
use nfstest.Nfs.Attributes.Safety.{Safe-nfs_fh3, Safe-post_op_attr}
use nfstest.Nfs.Directory.{
  entry3_fresh, entryplus3_fresh, Entry3, entry3_codec, Dirlist3, dirlist3_codec, Readdir3Args,
  readdir3_args_codec, Readdir3Resok, readdir3_resok_codec, Entryplus3, entryplus3_codec,
  Dirlistplus3, dirlistplus3_codec, Readdirplus3Args, readdirplus3_args_codec, Readdirplus3Resok,
  readdirplus3_resok_codec,
}

pub Safe-entry3 : (old : Entry3) → Safe (unpack old)
unfolding entry3_codec
Safe-entry3 old = search safe_rules depth 7

pub Safe-dirlist3 : (old : Dirlist3) → Safe (unpack old)
unfolding dirlist3_codec
Safe-dirlist3 old = Safe->>= _ _ Safe-bool λ has_entries.
    Safe->>= _ _ (Safe-if has_entries _ _ (Safe-entries Safe-entry3) (Safe-pure old.entries))
      λ _. search safe_rules

pub Safe-readdir3_args : (old : Readdir3Args) → Safe (unpack old)
unfolding readdir3_args_codec
Safe-readdir3_args old = search (safe_rules, Safe-nfs_fh3) depth 8

pub Safe-readdir3_resok : (old : Readdir3Resok) → Safe (unpack old)
unfolding readdir3_resok_codec
Safe-readdir3_resok old = search (safe_rules, Safe-post_op_attr, Safe-dirlist3) depth 7

pub Safe-entryplus3 : (old : Entryplus3) → Safe (unpack old)
unfolding entryplus3_codec
Safe-entryplus3 old = search (safe_rules, Safe-nfs_fh3, Safe-post_op_attr) depth 9

pub Safe-dirlistplus3 : (old : Dirlistplus3) → Safe (unpack old)
unfolding dirlistplus3_codec
Safe-dirlistplus3 old = Safe->>= _ _ Safe-bool λ has_entries.
    Safe->>= _ _ (Safe-if has_entries _ _ (Safe-entries Safe-entryplus3) (Safe-pure old.entries))
      λ _. search safe_rules

pub Safe-readdirplus3_args : (old : Readdirplus3Args) → Safe (unpack old)
unfolding readdirplus3_args_codec
Safe-readdirplus3_args old = search (safe_rules, Safe-nfs_fh3) depth 9

pub Safe-readdirplus3_resok : (old : Readdirplus3Resok) → Safe (unpack old)
unfolding readdirplus3_resok_codec
Safe-readdirplus3_resok old = search (safe_rules, Safe-post_op_attr, Safe-dirlistplus3) depth 7
