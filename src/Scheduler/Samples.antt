-- ===== src/Scheduler/Samples.antt =====
-- A scheduler with the sample registry and the fake provider, a job and a moment.
use leo_runners.Base.{[], ◌∷◌, none, live, false}
use leo_runners.Base.Int.{pos}
use leo_runners.State.Types.{Job, queued}
use leo_runners.Capacity.Samples.{whole, before}
use leo_runners.Policy.Selecting.{customer_first}
use leo_runners.Lifecycle.Provider.{RunnerSpec}
use leo_runners.Lifecycle.Fake.{Fake, provision, wait_ready_end, terminate}
use leo_runners.Scheduler.Cloud.{Cloud}
use leo_runners.Scheduler.Scheduling.{Settings, Site, Moment}

-- One provider, whose instances are ready at once.
abbrev pub one_fake : Cloud
one_fake = record {
  Handle = Unit {0};
  State = Fake;
  provision = λ h f ctx spec. provision (λ n. "fake-runner-1") (pos 1) ctx spec f;
  wait_ready = λ h f ctx i. wait_ready_end ctx i f;
  terminate = λ h f ctx i. terminate f ctx i;
}

abbrev pub job : Job
job = record {
  id = "job-1";
  repository = "r";
  workflow = "w";
  run_id = pos 1;
  job_id = pos 1;
  attempt = pos 1;
  labels = [];
  state = queued;
  controller_owner = "";
  created_at = pos 1;
  updated_at = pos 1;
  expires_at = pos 0;
  revision = pos 1;
}

abbrev pub spec : RunnerSpec
spec = record {
  cpu = pos 4;
  memory_gb = pos 0;
  architecture = "";
  os = "";
  disk_gb = pos 0;
  gpu = false;
  image = "";
  labels = [];
  docker_required = false;
  node_version = "";
  security_profile = "";
  metadata = [];
  expires_at = pos 5;
}

abbrev pub settings : Settings whole one_fake
settings = record { capacities = []; mode = customer_first; pool_providers = ("p", tt) ∷ [] }

abbrev pub site : Site whole one_fake
site = record {
  registry = before;
  state = record {
    capacity = pos 1;
    ready_after = pos 0;
    failures = record {
      provision = pos 0;
      wait_ready = pos 0;
      status = pos 0;
      terminate = pos 0;
      error = none;
    };
    instances = [];
    sequence = 0;
  };
  repository = record { jobs = []; runners = []; leases = []; events = [] };
}

abbrev pub moment : Moment
moment = record { at_provision = live; at_wait = live; at_create = live; clock = pos 2 }
