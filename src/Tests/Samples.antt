-- ===== src/Tests/Samples.antt =====
-- Inputs that the tests share: an ASCII world, and a registry of two clusters.
use devops_agent_msk_mcp.Base.{codes, Unicode, false, [], ◌∷◌, none}
use devops_agent_msk_mcp.Config.{
  IamCluster, ScramCluster, iam_cluster, scram_cluster, ClustersRegistry,
}
use devops_agent_msk_mcp.ClientProperties.{Manager}

-- Nothing beyond ASCII has a case, is a blank, a letter or a digit; bytes are characters.
abbrev pub ascii : Unicode
ascii = record {
  lower_of = λ c. c ∷ [];
  upper_of = λ c. c ∷ [];
  is_space_of = λ c. false;
  is_alnum_of = λ c. false;
  digit_of = λ c. none;
  decode = λ bytes. bytes;
}

abbrev pub prod : IamCluster
prod = record {
  bootstrap_servers = codes "b-1:9098";
  region = codes "us-east-1";
  description = none;
}

abbrev pub old : ScramCluster
old = record {
  bootstrap_servers = codes "b-2:9096";
  region = codes "us-east-1";
  scram_secret_arn = codes "arn";
  description = none;
}

abbrev pub registry : ClustersRegistry
registry = record {
  clusters = (codes "prod", iam_cluster prod) ∷ (codes "old", scram_cluster old) ∷ [];
}

abbrev pub manager : Manager
manager = record { registry = registry; output_dir = codes "/tmp/msk-mcp"; paths = []; files = [] }
