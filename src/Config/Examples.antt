-- ===== src/Config/Examples.antt =====
-- A partition written and read back.
use nclav.Base.{String, ◌≡◌, refl, Option, none, some, [], ◌∷◌, ok}
use nclav.Domain.{Partition, ProducesType, PartitionBackend}
use nclav.Config.Convert.{convert_partition}
use nclav.Config.Convert.Printing.{print_partition, convert_partition-print_partition}

abbrev svc : Partition
svc = record {
  id = "svc";
  name = "svc";
  produces = some ProducesType.http;
  imports = record { from = "db"; export_name = "pg"; alias = "db" } ∷ [];
  exports = [];
  inputs = ("db", "{{ db.hostname }}") ∷ [];
  declared_outputs = "hostname" ∷ "port" ∷ [];
  backend = PartitionBackend.open_tofu (record { tool = none; source = none; dir = "shop/svc" });
}

abbrev in_shop : String → Option String
in_shop path = some "shop/svc"

convert_partition-print_partition_example :
    convert_partition in_shop (print_partition svc) "shop/svc/config.yml" ≡ ok svc
convert_partition-print_partition_example =
    convert_partition-print_partition "shop/svc/config.yml" in_shop svc refl
