-- ===== src/Tests/Contracts.antt =====
-- The contracts of the configuration, the input check and the environment on concrete data.
use overworld_ops.Base.{
  Text, [], none, codes, pos, ◌≡◌, ◌≤◌, ◌↔◌, refl, is_empty, count_where, text_eq,
}
use overworld_ops.Models.{CreateServerInput}
use overworld_ops.Models.Validate.{validate, valid}
use overworld_ops.Models.Accepted.{IsAcceptable, validate-IsAcceptable}
use overworld_ops.Tests.Samples.{smp, config}
use overworld_ops.Config.{load, checked, env_by, raw_config}
use overworld_ops.Config.Ranges.{load_ranges}
use overworld_ops.Docker.Build.Table.{set_lines, variables, build_env-variables}
use overworld_ops.Docker.Build.{build_env}
use overworld_ops.Api.Views.{spec_for}

build_env-variables_example :
    count_where (text_eq (codes "MOTD=SMP")) (build_env (spec_for config smp))
    ≡ count_where (text_eq (codes "MOTD=SMP")) (set_lines (variables config smp))
build_env-variables_example = build_env-variables config smp (text_eq (codes "MOTD=SMP"))

abbrev request : CreateServerInput
request = record {
  name = codes " SMP ";
  server_type = [];
  version = [];
  modpack_provider = [];
  modpack_id = [];
  memory = codes "2G";
  cpu_limit = pos 0;
}

abbrev accepted_request : CreateServerInput
accepted_request = record request {
  name = codes "SMP";
  server_type = codes "VANILLA";
  version = codes "LATEST";
}

validate-IsAcceptable_example :
    (validate request ≡ valid accepted_request) ↔ IsAcceptable request accepted_request
validate-IsAcceptable_example = validate-IsAcceptable request accepted_request

abbrev unset : Text → Text
unset key = []

load_ranges_example : (1 ≤ 25565) × (25565 ≤ 25665) × (25665 ≤ 65535) × (1 ≤ 10)
unfolding load checked env_by is_empty
load_ranges_example =
    load_ranges unset (λ s. none) (λ s. none)
      (record (raw_config unset (λ s. none) (λ s. none)) {
        port_range_start = 25565;
        port_range_end = 25665;
        max_servers = 10;
      })
      refl
