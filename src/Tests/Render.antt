-- ===== src/Tests/Render.antt =====
-- The rendering of a container and of a build with its Containerfile.
use creidhne.Base.{
  ◌≡◌, refl, ap, Bool, true, false, List, [], ◌∷◌, All, Result, ok, err, list_eq, nat_eq,
}
use creidhne.Base.Str.{Str, str, join}
use creidhne.Base.Paths.{is_local}
use creidhne.Base.Clean.{path_join, clean}
use creidhne.Base.Dict
use creidhne.Base.Dict.{Dict}
use creidhne.Eval.Data.{Value, Fields, Quadlet, get_field}
use creidhne.Reconcile.Disk.{Disk, Errno}
use creidhne.Reconcile.Plan.{DesiredFile, compute_plan}
use creidhne.Reconcile.Plan.Refuse.{refuses}
use creidhne.Render.{
  FileContent, ensure_local, claim, put, add_file, add_build_artifacts, render_unit, emit_unit,
  emit_units, emit_quadlets, build_file_set,
}
use creidhne.Render.Written.{IsWritten, build_file_set-IsWritten}
use creidhne.Render.Project.{desired_files, desired_or_none, render_quadlets}
use creidhne.Render.Planned.{render_quadlets-refuses}

abbrev every : Str → Bool
every name = true

abbrev execute : Str → Fields → Result Str Str
execute name root = ok name

abbrev quadlets : List Quadlet
quadlets =
    record {
      name = str "app";
      units =
          record {
            kind = str "container";
            stem = str "a";
            filename = str "a.container";
            service = [];
            unit_data = Fields.end;
          }
          ∷ record {
            kind = str "build";
            stem = str "b";
            filename = str "b.build";
            service = [];
            unit_data = Fields.field (str "ContainerFile") (Value.text (str "FROM x")) Fields.end;
          }
          ∷ [];
    }
    ∷ []

abbrev files : Dict Str FileContent
files =
    (str "a.container", record { content = str "container.tpl"; mode = [] })
    ∷ (str "b.build", record { content = str "build.tpl"; mode = [] })
    ∷ (str "images/b.Containerfile", record { content = str "FROM x"; mode = [] })
    ∷ []

rendered : build_file_set every execute quadlets ≡ ok files
unfolding build_file_set emit_quadlets emit_units emit_unit claim ensure_local is_local Dict.lookup
    render_unit put Dict.insert add_build_artifacts get_field add_file path_join clean join
rendered = refl

build_file_set-IsWritten_example :
    ((p : Str) → Dict.has p files ≡ true → is_local p ≡ true)
    × All (λ q. All (IsWritten (render_unit every execute) files) q.units) quadlets
build_file_set-IsWritten_example = build_file_set-IsWritten every execute quadlets files rendered

abbrev desired : Dict Str DesiredFile
desired =
    (str "a.container", record { content = str "container.tpl"; mode = [] })
    ∷ (str "b.build", record { content = str "build.tpl"; mode = [] })
    ∷ (str "images/b.Containerfile", record { content = str "FROM x"; mode = [] })
    ∷ []

abbrev broken : Disk
broken = record {
  lstat = λ path. err (Errno.other (str "EIO"));
  stat = λ path. err (Errno.other (str "EIO"));
  read_file = λ path. err (Errno.other (str "EIO"));
  read_dir = λ path. err (Errno.other (str "EIO"));
  walk_dir = λ path. err (Errno.other (str "EIO"));
}

rendered_desired : render_quadlets every execute quadlets ≡ ok desired
unfolding render_quadlets desired_files
rendered_desired = ap desired_or_none rendered

render_quadlets-refuses_example : refuses (compute_plan desired broken []) ≡ false
render_quadlets-refuses_example =
    render_quadlets-refuses every execute quadlets desired broken [] rendered_desired
