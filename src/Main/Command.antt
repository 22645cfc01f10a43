-- ===== src/Main/Command.antt =====
-- cmd/freno/main.go: what the command line asks for: the mode, the level of the log, and whether the
-- service is forced to lead.
use freno.Prelude.{Bool, [], if◌then◌else◌}
use freno.Go.Text.{Text, codes, str_eq}

-- The flags that override no setting.
pub record Switches : Type 0 where
  pub http : Bool
  pub force_leadership : Bool
  pub quiet : Bool
  pub version : Bool
  pub verbose : Bool
  pub debug : Bool
  pub stack : Bool
  pub help : Bool

-- The three levels of the log that main sets.
pub data LogLevel : Type 0 where
  level_error level_info level_debug : LogLevel

-- Each test overrides the ones before.
unfoldable pub log_level : Switches → LogLevel
log_level s =
    let verbose = if s.verbose then level_info else level_error in
    let debug = if s.debug then level_debug else verbose in if s.quiet then level_error else debug

-- The version and the commit, which the build may set.
unfoldable pub app_version : Text → Text
app_version linked = if str_eq linked [] then codes "local-build" else linked

unfoldable pub git_commit : Text → Text
git_commit linked = if str_eq linked [] then codes "unknown" else linked

-- What main does: it prints its usage or its version, or reads the configuration, with the level of
-- the log and the variable ForceLeadership set, and then serves or prints its usage.
pub data Mode : Type 0 where
  usage : Mode
  print_version : Text → Text → Mode
  configured : LogLevel → Bool → Mode → Mode
  serve : Mode

unfoldable pub mode_of : Text → Text → Switches → Mode
unfolding log_level app_version git_commit
mode_of linked_version linked_commit s =
    if s.help
    then usage
    else if s.version
    then print_version (app_version linked_version) (git_commit linked_commit)
    else configured (log_level s) s.force_leadership (if s.http then serve else usage)
