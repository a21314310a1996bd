-- ===== src/Db/Agree.antt =====
-- The refinements of fluid/db/: each driver implements the dictionary, so the two agree.
pub mod OfBolt
pub mod OfLevel
use fluidfs.Prelude.{
  ◌≡◌, refl, ap, ◌∙◌, Bool, true, false, ◌&&◌, List, Option, none, some, All, if◌then◌else◌,
}
use fluidfs.Prelude.Slices.{Bytes}
use fluidfs.Prelude.Text.{text_eq}
use fluidfs.Db.{Bucket, names, versions, prefixes, bucket_name}
use fluidfs.Db.Level.{create_bucket}
use fluidfs.Db.Spec.{same_bucket}

pub same_bucket_name : (b b' : Bucket) → text_eq (bucket_name b) (bucket_name b') ≡ same_bucket b b'
same_bucket_name names names = refl
same_bucket_name names versions = refl
same_bucket_name names prefixes = refl
same_bucket_name versions names = refl
same_bucket_name versions versions = refl
same_bucket_name versions prefixes = refl
same_bucket_name prefixes names = refl
same_bucket_name prefixes versions = refl
same_bucket_name prefixes prefixes = refl

pub same_create_bucket :
    (b b' : Bucket) (k k' : Bytes)
    → text_eq (create_bucket (bucket_name b) k) (create_bucket (bucket_name b') k')
      ≡ same_bucket b b' && text_eq k k'
unfolding create_bucket
same_create_bucket names names k k' = refl
same_create_bucket names versions k k' = refl
same_create_bucket names prefixes k k' = refl
same_create_bucket versions names k k' = refl
same_create_bucket versions versions k k' = refl
same_create_bucket versions prefixes k k' = refl
same_create_bucket prefixes names k k' = refl
same_create_bucket prefixes versions k k' = refl
same_create_bucket prefixes prefixes k k' = refl
