-- ===== src/Render/Project.antt =====
-- `renderQuadlets` and `filterQuadlets` (internal/cli/root.go), and `perQuadletFiles`
-- (internal/cli/state.go).
use creidhne.Base.{
  ◌>>=◌, Bool, true, Option, none, some, List, [], ◌∷◌, Result, ok, err, list_eq, nat_eq, is_nil,
  map, if◌then◌else◌,
}
use creidhne.Base.Str.{Str}
use creidhne.Base.Order.{sort, str_order}
use creidhne.Base.Dict
use creidhne.Base.Dict.{Dict}
use creidhne.Eval.Data.{Fields, Quadlet}
use creidhne.State.Types.{FileInput}
use creidhne.Reconcile.Plan.{DesiredFile}
use creidhne.Render.{FileContent, RenderError, build_file_set}

-- `desired[name] = reconcile.DesiredFile{Content: fc.Content, Mode: fc.Mode}`
unfoldable pub desired_files : Dict Str FileContent → Dict Str DesiredFile
desired_files [] = []
desired_files ((name, fc) ∷ files) =
    (name, record { content = fc.content; mode = fc.mode }) ∷ desired_files files

pub data ProjectError : Type 0 where
  render_failed : RenderError → ProjectError
  no_files : ProjectError

abbrev pub desired_or_none :
    Result RenderError (Dict Str FileContent) → Result ProjectError (Dict Str DesiredFile)
desired_or_none (err e) = err (render_failed e)
desired_or_none (ok files) = if is_nil files then err no_files else ok (desired_files files)

unfoldable pub inputs : Dict Str DesiredFile → Dict Str FileInput
inputs [] = []
inputs ((p, f) ∷ fs) = (p, record { content = f.content; mode = f.mode }) ∷ inputs fs

module _ (has_template : Str → Bool) (execute : Str → Fields → Result Str Str) where
  -- The template set itself is embedded, so its two errors cannot occur.
  unfoldable pub render_quadlets : List Quadlet → Result ProjectError (Dict Str DesiredFile)
  render_quadlets quads = desired_or_none (build_file_set has_template execute quads)

  unfoldable pub add_quadlets :
      List Quadlet
      → Dict Str (Dict Str FileInput)
      → Result ProjectError (Dict Str (Dict Str FileInput))
  add_quadlets [] files = ok files
  add_quadlets (q ∷ qs) files = do
    fs ← render_quadlets (q ∷ [])
    add_quadlets qs (Dict.insert q.name (inputs fs) files)

  unfoldable pub per_quadlet_files :
      List Quadlet → Result ProjectError (Dict Str (Dict Str FileInput))
  per_quadlet_files quads = add_quadlets quads []

unfoldable pub by_name : List Quadlet → Dict Str Quadlet → Dict Str Quadlet
by_name [] m = m
by_name (q ∷ qs) m = by_name qs (Dict.insert q.name q m)

pub data UnknownQuadlet : Type 0 where
  no_quadlet : Str → List Str → UnknownQuadlet

abbrev pub quadlet_or : UnknownQuadlet → Option Quadlet → Result UnknownQuadlet Quadlet
quadlet_or e none = err e
quadlet_or e (some q) = ok q

abbrev pub name_of : Quadlet → Str
name_of q = q.name

-- The loop over the wanted names; a name that was seen is skipped.
unfoldable pub pick_quadlets :
    List Quadlet → List Str → Dict Str Bool → Result UnknownQuadlet (List Quadlet)
pick_quadlets quads [] seen = ok []
pick_quadlets quads (name ∷ wanted) seen =
    let rest = pick_quadlets quads wanted (Dict.insert name true seen) in
    let found =
      quadlet_or (no_quadlet name (sort (map name_of quads)))
        (Dict.lookup name (by_name quads [])) in
    if Dict.has name seen then rest else found >>= λ q. rest >>= λ qs. ok (q ∷ qs)

unfoldable pub filter_quadlets : List Quadlet → List Str → Result UnknownQuadlet (List Quadlet)
filter_quadlets quads wanted = pick_quadlets quads wanted []
