-- ===== src/Snapshot/Files.antt =====
-- Loading the snapshot files of a run (`Load` and `Decode`, internal/snapshot/load.go), and the
-- production context that the engine is given. What a file holds is an argument.
use reversibility_engine.Prelude.Sort.{sort_strings}
use reversibility_engine.Prelude.Result.{Result, ok, err, ◌>>=◌}
use reversibility_engine.Prelude.Format.{format}
use reversibility_engine.Prelude.Text.{Text, text}
use reversibility_engine.Prelude.{ℕ, suc, Option, none, some, List, [], ◌∷◌, ◌==◌, if◌then◌else◌}
use reversibility_engine.Engine.Interfaces.{ProductionContext}
use reversibility_engine.Snapshot.Float.{Floats}
use reversibility_engine.Snapshot.Apply.{enrich_all}
use reversibility_engine.Snapshot.Canonical.{Snapshot, Moment, validate, canonicalize}
use reversibility_engine.Snapshot.Load.{
  Loaded, merge, set_bytes, invalid_context, default_stale_after,
}

-- What `os.ReadFile` gives.
pub data Content : Type 0 where
  absent : Content
  unreadable : Text → Content
  holds : Text → Content

pub record ContextFile : Type 0 where
  pub path : Text
  pub content : Content

module _ {F : Type 0} (fl : Floats F) (hash : List ℕ → Text)
    (decode_json : Text → Result (Snapshot F)) where
  checked : Snapshot F → Option Text → Result (Snapshot F)
  unfolding canonicalize
  checked snap none = ok (canonicalize snap)
  checked snap (some why) = err why

  decoded : Result (Snapshot F) → Result (Snapshot F)
  unfolding checked validate format text
  decoded (err why) = err (format (text "decoding: %v") (why ∷ []))
  decoded (ok snap) = checked snap (validate (some snap))

  -- `Decode`.
  unfoldable pub decode : Text → Result (Snapshot F)
  unfolding decoded
  decode raw = decoded (decode_json raw)

  wrapped : Text → Result (Snapshot F) → Result (Snapshot F)
  unfolding format invalid_context text
  wrapped path (err why) = err (format (text "%s: %s: %s") (invalid_context ∷ path ∷ why ∷ []))
  wrapped path (ok snap) = ok snap

  -- The loop of `Load`, with the number of files that it loaded.
  unfoldable pub load_files : List ContextFile → Moment → ℕ → Loaded F → ℕ → Result (Loaded F × ℕ)
  unfolding merge decode wrapped format invalid_context text
  load_files [] now stale_after s loaded = ok (s, loaded)
  load_files (f ∷ fs) now stale_after s loaded =
      let skipped = load_files fs now stale_after s loaded in
      elim f.content [
        | absent ↦ skipped
        | unreadable why ↦
            err (format (text "%s: reading %s: %s") (invalid_context ∷ f.path ∷ why ∷ []))
        | holds raw ↦ wrapped f.path (decode raw) >>= (λ snap.
            merge fl s snap f.path now stale_after
            >>= (λ merged. load_files fs now stale_after merged (suc loaded)))
      ]

  unfoldable finished : Loaded F × ℕ → Option (Loaded F)
  unfolding set_bytes sort_strings
  finished r =
      let s = r.0 in
      let set : Loaded F = record s {
        digest = hash (set_bytes fl s);
        warnings = sort_strings s.warnings;
      } in
      if r.1 == 0 then none else some set

  -- `Load`: no context where no file exists. A bound of zero means the default.
  unfoldable pub load : List ContextFile → Moment → ℕ → Result (Option (Loaded F))
  unfolding load_files finished
  load files now stale_after =
      let start : Loaded F = record {
        postgres = none;
        kubernetes = none;
        warnings = [];
        digest = [];
        sources = [];
      } in
      let bound = if stale_after == 0 then default_stale_after else stale_after in
      load_files files now bound start 0 >>= (λ r. ok (finished r))

  -- What `Certify` reads of the context.
  unfoldable pub production_context : Loaded F → ProductionContext
  unfolding enrich_all
  production_context s = record {
    digest = s.digest;
    warnings = s.warnings;
    enrich = enrich_all fl (some (record { postgres = s.postgres; kubernetes = s.kubernetes }));
  }
