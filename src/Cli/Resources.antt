-- ===== src/Cli/Resources.antt =====
-- cli/cmd/resources.go: the snapshots of docker and redis-cli around a run. A `Runner` gives the
-- output of a command, or its error.
use Prim.Native.String.{◌++◌ as ◌+++◌}
use rate_cap.Prelude.{
  String, Bool, true, ◌&&◌, List, [], ◌∷◌, ◌++◌, Option, none, some, if◌then◌else◌, ◌==◌, ◌⊎◌, inl,
  inr,
}
use rate_cap.Limiter.{Error}
use rate_cap.Cli.Root.{Outcome, Writer, write_all}

abbrev pub Runner : Type 0
Runner = String → List String → String ⊎ Error

pub record ResourceSnapshot : Type 0 where
  pub docker_stats : String
  pub redis_info : String

-- A field is left empty where the command fails.
output_of : String ⊎ Error → String
output_of (inl out) = out
output_of (inr e) = ""

unfoldable pub capture_resources : Runner → List String → String → ResourceSnapshot
unfolding output_of
capture_resources run containers redis_addr = record {
  docker_stats = elim containers [
    | [] ↦ ""
    | c ∷ cs ↦
        output_of (run "docker" ("stats" ∷ "--no-stream" ∷ "--format" ∷ "{{json .}}" ∷ c ∷ cs))
  ];
  redis_info =
      if redis_addr == ""
      then ""
      else output_of (run "redis-cli" ("-u" ∷ redis_addr ∷ "INFO" ∷ []));
}

unfoldable pub is_snapshot_empty : Option ResourceSnapshot → Bool
is_snapshot_empty none = true
is_snapshot_empty (some snap) = (snap.docker_stats == "") && (snap.redis_info == "")

-- A line that is left out if there is nothing to show.
shown_if : String → String → List String
shown_if title text = if text == "" then [] else (title +++ (text +++ "\n")) ∷ []

section_lines : String → ResourceSnapshot → List String
unfolding shown_if
section_lines label snap =
    ("Resources (" +++ (label +++ "):\n")) ∷ shown_if "  docker stats: " snap.docker_stats
    ++ shown_if "  redis info: " snap.redis_info

-- The lines of `printResourceSection`, which stops at the first that cannot be written.
unfoldable pub resource_section : String → Option ResourceSnapshot → List String
unfolding section_lines
resource_section label none = []
resource_section label (some snap) =
    if is_snapshot_empty (some snap) then [] else section_lines label snap

unfoldable pub print_resource_section : Writer → String → Option ResourceSnapshot → Outcome
print_resource_section w label snap = write_all w (resource_section label snap)
