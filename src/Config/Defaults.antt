-- ===== src/Config/Defaults.antt =====
-- tracing/config/config_manager.go, DefaultTypeAwareMutationConfig, without the fields that validation does
-- not read; the three float64 values are arguments.
use autopatch.Common.{[], ◌∷◌}
use autopatch.Common.Int.{pos, negsuc}
use autopatch.Common.Text.{codes}
use autopatch.Config.Result.{ChainMutationConfig, TypeAwareMutationConfig}

abbrev pub ethereum_config : ChainMutationConfig
ethereum_config = record {
  chain_id = pos 1;
  name = codes "ethereum";
  explorer_api_key = [];
  explorer_api = codes "https://api.etherscan.io/api";
  known_addresses =
      codes "0x0000000000000000000000000000000000000000"
      ∷ codes "0xC02aaA39b223FE8D0A0e5C4F27eAD9083C756Cc2"
      ∷ codes "0xA0b86991c6218b36c1d19D4a2e9Eb0cE3606eB48"
      ∷ codes "0xdAC17F958D2ee523a2206206994597C13D831ec7"
      ∷ codes "0x7a250d5630B4cF539739dF2C5dAcb4c659F2488D"
      ∷ [];
}

abbrev pub bsc_config : ChainMutationConfig
bsc_config = record {
  chain_id = pos 56;
  name = codes "bsc";
  explorer_api_key = [];
  explorer_api = codes "https://api.bscscan.com/api";
  known_addresses =
      codes "0x0000000000000000000000000000000000000000"
      ∷ codes "0xbb4CdB9CBd36B01bD1cBaEBF2De08d9173bc095c"
      ∷ codes "0xe9e7CEA3DedcA5984780Bafc599bD69ADd087D56"
      ∷ codes "0x10ED43C718714eb63d5aA57B78B54704E256024E"
      ∷ codes "0x8894E0a0c962CB723c1976a4421c95949bE2D4E3"
      ∷ [];
}

abbrev pub default_type_aware_mutation_config : {F : Type 0} → F → F → F → TypeAwareMutationConfig F
default_type_aware_mutation_config tenth fifth threshold = record {
  max_mutations = pos 1000;
  chains = (codes "ethereum", ethereum_config) ∷ (codes "bsc", bsc_config) ∷ [];
  address_mutation = record {
    flip_bytes = pos 1 ∷ pos 2 ∷ pos 4 ∷ pos 8 ∷ [];
    nearby_range = pos 1000;
    zero_address_ratio = tenth;
  };
  number_mutation = record {
    step_sizes =
        pos 1
        ∷ pos 10
        ∷ pos 100
        ∷ pos 1000
        ∷ pos 10000
        ∷ negsuc 0
        ∷ negsuc 9
        ∷ negsuc 99
        ∷ negsuc 999
        ∷ [];
    multiplier_ratio = fifth;
  };
  string_max_length = pos 1000;
  execution = record {
    max_concurrent_workers = pos 8;
    batch_size = pos 100;
    timeout_seconds = pos 30;
    similarity_threshold = threshold;
    cache_size = pos 10000;
  };
}
