-- ===== src/Tests/Parsing.antt =====
-- A scenario file that is accepted: core/validation.py.
use ros2_resilience.Prelude.{◌≡◌, refl}
use ros2_resilience.Python.Result.{ok}
use ros2_resilience.Core.Fields.{is_blank}
use ros2_resilience.Core.Accepted.{IsAccepted}
use ros2_resilience.Core.Serialized.{as_dict}
use ros2_resilience.Core.Validation.{parse_scenario}
use ros2_resilience.Core.Validation.RoundTrip.{parse_scenario-as_dict}
use ros2_resilience.Tests.Numbers.{Fixed-Float}
use ros2_resilience.Tests.Trial.{scenario}

scenario-IsAccepted : IsAccepted scenario
unfolding Fixed-Float is_blank
scenario-IsAccepted = record {
  version = refl;
  name = refl;
  system = record {
    input = refl;
    output = refl;
    message = refl;
    supported = refl;
    command = refl;
    robot = record { rate = (refl, refl); linear = refl; angular = refl };
  };
  experiment = record {
    readiness = (refl, refl);
    baseline = (refl, refl);
    observation = (refl, refl);
  };
  fault = record { fits = (refl, refl); lasts = (refl, refl) };
  watchdog = record {
    age = (refl, refl);
    rate = (refl, refl);
    window = (refl, refl);
    fraction = (refl, refl);
    period = (refl, refl);
    recovery = refl;
    supported = refl;
  };
  expect = record {
    fault = (refl, refl);
    watchdog = record { violation = refl; within = (refl, refl) };
    recovery = record {
      action = refl;
      supported = refl;
      command = (refl, refl);
      observed = (refl, refl);
    };
    robot = record {
      linear = (refl, refl);
      angular = (refl, refl);
      within = (refl, refl);
      hold = (refl, refl);
    };
  };
  timely = refl;
  patient = refl;
}

parse_scenario-as_dict_example : parse_scenario (as_dict scenario) ≡ ok scenario
unfolding Fixed-Float
parse_scenario-as_dict_example = parse_scenario-as_dict scenario refl scenario-IsAccepted
