-- ===== src/Driver/Examples.antt =====
-- The local driver at a partition that produces TCP.
use nclav.Base.{String, ◌≡◌, none, [], ◌∷◌, Map, get, string_eq, arith, eq_iff}
use nclav.Domain.{Enclave, Export, ExportType, AuthType, any_enclave}
use nclav.Store.Documents.{documents, documents_laws}
use nclav.Driver.Local.{export_handle, import_outputs}
use nclav.Driver.Local.Outputs.{import_outputs-export_handle}

abbrev shop : Enclave
shop = record {
  id = "shop";
  name = "shop";
  cloud = none;
  region = "local";
  identity = none;
  network = none;
  dns = none;
  imports = [];
  exports = [];
  partitions = [];
}

abbrev pg : Export
pg = record {
  name = "pg";
  target_partition = "db";
  export_type = ExportType.tcp;
  to = any_enclave;
  auth = AuthType.none;
  hostname = none;
  port = none;
}

abbrev addresses : Map String String
addresses = ("hostname", "db.local") ∷ ("port", "5432") ∷ []

import_outputs-export_handle_example :
    get "port" (import_outputs documents (export_handle documents shop pg addresses))
    ≡ get "port" addresses
import_outputs-export_handle_example =
    import_outputs-export_handle documents documents_laws shop pg addresses
      (((ground (arith, eq_iff "hostname" "port")), tt), (tt, tt)) "port"
