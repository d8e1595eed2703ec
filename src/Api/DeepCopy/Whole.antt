-- ===== src/Api/DeepCopy/Whole.antt =====
-- The copies of resources and of lists of them are deep, and so are those behind a pointer.
use minio_operator.Base.{Option, List, ◌++◌}
use minio_operator.Api.Values.{Values}
use minio_operator.Api.DeepCopy.{
  DeepCopies, minio_deep_copy_into, minio_list_deep_copy_into, minio_deep_copy,
  minio_list_deep_copy,
}
use minio_operator.Api.DeepCopy.Kinds
use minio_operator.Api.DeepCopy.Fresh.{
  Deep, Fresh, Points, Deep-step, all-Deep, pointer-Deep, pure-Fresh,
}
use minio_operator.Api.DeepCopy.Layout.{Library, Address, MinioAt, MinioListAt, Cell}
use minio_operator.Api.DeepCopy.Shown.{
  Meanings, AreDeep, MinioValue, MinioShows, MinioListValue, MinioListShows,
}
use minio_operator.Api.DeepCopy.Specs.{minio_spec-Deep}
use minio_operator.Api.DeepCopy.Statuses.{minio_status-Deep}

module _ {V : Values} {L : Library} (D : DeepCopies L) (M : Meanings V L) (A : AreDeep D M) where
  minio-Deep : Deep (MinioShows M) (minio_deep_copy_into D)
  unfolding minio_deep_copy_into
  minio-Deep = record { grows = grown; copies = copied }
    where
      grown :
          (v : MinioValue M) (h more : List (Cell L)) (x : MinioAt L)
          → MinioShows M h x v
          → MinioShows M (h ++ more) x v
      grown v h more x r = record {
        type_meta = r.type_meta;
        object_meta = (A.object_meta).grows v.object_meta h more x.object_meta r.object_meta;
        spec = (minio_spec-Deep D M A).grows v.spec h more x.spec r.spec;
        status = (minio_status-Deep).grows v.status h more x.status r.status;
      }

      copied :
          (h : List (Cell L)) (x : MinioAt L) (v : MinioValue M)
          → MinioShows M h x v
          → Fresh h (minio_deep_copy_into D x h) (λ g y. MinioShows M g y v)
      copied h x v r =
          Deep-step (A.object_meta) (h) x.object_meta v.object_meta _ _ r.object_meta
            (λ object_meta more0.
              let r0 = grown v (h) more0 x r in
              Deep-step (minio_spec-Deep D M A) (h ++ more0) x.spec v.spec _ _ r0.spec
                (λ spec more1.
                  let r1 = grown v (h ++ more0) more1 x r0 in
                  Deep-step (minio_status-Deep) (h ++ more0 ++ more1) x.status v.status _ _
                    r1.status
                    (λ status more2. pure-Fresh _ _ _ (λ g is_status is_spec is_object_meta.
                      record {
                        type_meta = r.type_meta;
                        object_meta = is_object_meta;
                        spec = is_spec;
                        status = is_status;
                      }))))

  minio_list-Deep : Deep (MinioListShows M) (minio_list_deep_copy_into D)
  unfolding minio_list_deep_copy_into
  minio_list-Deep = record { grows = grown; copies = copied }
    where
      grown :
          (v : MinioListValue M) (h more : List (Cell L)) (x : MinioListAt L)
          → MinioListShows M h x v
          → MinioListShows M (h ++ more) x v
      grown v h more x r = record {
        type_meta = r.type_meta;
        list_meta = (A.list_meta).grows v.list_meta h more x.list_meta r.list_meta;
        items =
            (pointer-Deep (all-Deep minio-Deep) (Kinds.minios_cell L)).grows v.items h more x.items
              r.items;
      }

      copied :
          (h : List (Cell L)) (x : MinioListAt L) (v : MinioListValue M)
          → MinioListShows M h x v
          → Fresh h (minio_list_deep_copy_into D x h) (λ g y. MinioListShows M g y v)
      copied h x v r =
          Deep-step (A.list_meta) (h) x.list_meta v.list_meta _ _ r.list_meta (λ list_meta more0.
            let r0 = grown v (h) more0 x r in
            Deep-step (pointer-Deep (all-Deep minio-Deep) (Kinds.minios_cell L)) (h ++ more0)
              x.items v.items _ _ r0.items
              (λ items more1. pure-Fresh _ _ _ (λ g is_items is_list_meta. record {
                type_meta = r.type_meta;
                list_meta = is_list_meta;
                items = is_items;
              })))

  -- Where the libraries' `DeepCopyInto` are deep: `DeepCopy` of a pointer to a resource, or of nil,
  -- succeeds and only adds objects to memory. Its result stands for the same resource, and it still
  -- does when the objects that were in memory before have been replaced by any others; so the copy
  -- shares nothing with the original.
  pub minio_deep_copy_lem :
      (h : List (Cell L)) (p : Address) (v : Option (MinioValue M))
      → Points (MinioShows M) (Kinds.minio_cell L) h p v
      → Fresh h (minio_deep_copy D p h) (λ g q. Points (MinioShows M) (Kinds.minio_cell L) g q v)
  unfolding minio_deep_copy
  minio_deep_copy_lem h p v r = (pointer-Deep minio-Deep (Kinds.minio_cell L)).copies h p v r

  -- The same of `DeepCopy` of a list of resources.
  pub minio_list_deep_copy_lem :
      (h : List (Cell L)) (p : Address) (v : Option (MinioListValue M))
      → Points (MinioListShows M) (Kinds.minio_list_cell L) h p v
      → Fresh h
          (minio_list_deep_copy D p h)
          (λ g q. Points (MinioListShows M) (Kinds.minio_list_cell L) g q v)
  unfolding minio_list_deep_copy
  minio_list_deep_copy_lem h p v r =
      (pointer-Deep minio_list-Deep (Kinds.minio_list_cell L)).copies h p v r

  -- What is added to memory, or written to what was added, does not show in the original.
  pub minio_original :
      (h more : List (Cell L)) (p : Address) (v : Option (MinioValue M))
      → Points (MinioShows M) (Kinds.minio_cell L) h p v
      → Points (MinioShows M) (Kinds.minio_cell L) (h ++ more) p v
  minio_original h more p v r = (pointer-Deep minio-Deep (Kinds.minio_cell L)).grows v h more p r
