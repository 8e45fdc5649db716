-- ===== src/Tests/Commits.antt =====
-- Runs of the changes of a table, as commits of the cache's system.
use ripcord.Models.{Flag, loaded}
use ripcord.Services.Operations.{create}
use ripcord.Services.Flags.{flag_from_input, updated}
use ripcord.Services.Commits
use ripcord.Tests.Services.{Tables, flags_table, banner, kill, none_yet}

abbrev with_banner : Tables
with_banner = (create flags_table none_yet banner "anna").1

abbrev killed : Flag
killed = updated (loaded (flag_from_input banner)) kill
